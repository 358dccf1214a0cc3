-- ===== src/Publish/Classifier/Messages.antt =====
-- How long the text is that the classifier gives for a failure.
use Prim.Native.Char.{code}
use Prim.Native.String.{◌++◌ as str_append}
use Prim.Native.String.append
use roam_content_engine.Prelude.{
  ℕ, ◌+◌, ◌≤◌, String, Bool, true, false, Option, none, some, ◌||◌, ◌==◌, ◌≡◌, inl, inr, arith,
  Bool-cases, trim, is_empty, utf16_length, utf16_length-slice_to, leb, leb→le,
}
use roam_content_engine.Errors.{Thrown}
use roam_content_engine.Retry.{is_retryable_status}
use roam_content_engine.Publish.Classifier.{
  PublishFailurePhase, submission, poll, download, sanitize_error_message, message_or, message_of,
  message_from_error, phase_prefix, verdict, classify_remote,
  classify_publish_orchestration_failure,
}

utf16_length-append :
    (s t : String) → utf16_length (str_append s t) ≡ utf16_length s + utf16_length t
unfolding utf16_length
utf16_length-append String.[] t = rw (append.nil t) (omega arith)
utf16_length-append (String.◌∷◌ c s) t =
    rw (append.cons c s t) (omega (arith, utf16_length-append s t))

sanitize_length : (m : String) → utf16_length (sanitize_error_message m) ≤ 500
unfolding sanitize_error_message
sanitize_length m = elim (Bool-cases (leb (utf16_length m) 500)) [
  | inl fits ↦ rw fits (leb→le _ _ fits)
  | inr long ↦ rw long (utf16_length-slice_to 500 m)
]

message_or_length :
    (m : Option String) (fallback : String)
    → utf16_length fallback ≤ 500
    → utf16_length (message_or m fallback) ≤ 500
unfolding message_or
message_or_length none fallback h = h
message_or_length (some m) fallback h = elim (Bool-cases (is_empty (trim m))) [
  | inl blank ↦ rw blank h
  | inr text ↦ rw text (sanitize_length m)
]

prefix_length : (phase : PublishFailurePhase) → utf16_length (phase_prefix phase) ≤ 17
unfolding phase_prefix utf16_length
prefix_length submission = omega arith
prefix_length poll = omega arith
prefix_length download = omega arith

verdict_length :
    (error : Thrown) (phase : PublishFailurePhase) (retryable : Bool) (code suffix : String)
    → utf16_length suffix ≤ 100
    → utf16_length (verdict error phase retryable code suffix).error_message ≤ 500
unfolding verdict message_from_error
verdict_length error phase retryable code suffix h =
    message_or_length (message_of error) _
      (omega (arith, utf16_length-append (phase_prefix phase) suffix, prefix_length phase))

remote_length :
    (error : Thrown) (phase : PublishFailurePhase) (status : ℕ)
    → utf16_length (classify_remote error phase status).error_message ≤ 500
unfolding classify_remote utf16_length
remote_length error phase status = elim (Bool-cases (status == 401 || status == 403)) [
  | inl denied ↦ rw denied (verdict_length error phase _ _ _ (omega arith))
  | inr allowed ↦ elim (Bool-cases (is_retryable_status status)) [
    | inl passes ↦ rw (allowed, passes) (verdict_length error phase _ _ _ (omega arith))
    | inr refused ↦ rw (allowed, refused) (verdict_length error phase _ _ _ (omega arith))
  ]
]

-- The stored message has at most 500 UTF-16 units, whatever is thrown and in whichever phase.
pub error_message_bounded :
    (error : Thrown) (phase : PublishFailurePhase) (uncertain : Bool)
    → utf16_length (classify_publish_orchestration_failure error phase uncertain).error_message
      ≤ 500
unfolding classify_publish_orchestration_failure utf16_length
error_message_bounded error phase true = verdict_length error phase _ _ _ (omega arith)
error_message_bounded (Thrown.remote_request status m) phase false = remote_length _ phase status
error_message_bounded error phase false = verdict_length error phase _ _ _ (omega arith)
