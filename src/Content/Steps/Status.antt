-- ===== src/Content/Steps/Status.antt =====
-- What a step does to a row's status, and whose steps a leased row takes.
use roam_content_engine.Prelude.{
  ℕ, String, Bool, true, false, Option, none, some, ◌≡◌, refl, ◌⊎◌, inl, inr, arith, str_eq, eq_iff,
  holds, &&-true,
}
use roam_content_engine.Content.Types.{ContentJobRow, ContentJobStatus, same_status}
use roam_content_engine.Content.Transitions.{is_transition_allowed}
use roam_content_engine.Content.Repository.{is_waiting}
use roam_content_engine.Content.Steps.{
  RowStep, FreeStep, is_leased_by, stays, acquires, renews, stages, completes, retries, fails,
  recovers, cancels, keeps, claims, moves_on, ends_well, ends_badly, puts_off, calls_off,
}

-- no way leads on from this status
unfoldable pub is_terminal : ContentJobStatus → Bool
is_terminal ContentJobStatus.completed = true
is_terminal ContentJobStatus.failed = true
is_terminal ContentJobStatus.cancelled = true
is_terminal _ = false

-- the status stays, or changes as the policy allows
abbrev pub Allowed : ContentJobStatus → ContentJobStatus → Type 0
Allowed a b = (b ≡ a) ⊎ (is_transition_allowed a b ≡ true)

pub leased-processing :
    (now : ℕ) (w : String) (r : ContentJobRow)
    → is_leased_by now w r ≡ true
    → r.status ≡ ContentJobStatus.processing
unfolding same_status
leased-processing now w r h = ground arith

pub RowStep-Allowed :
    {now : ℕ} {who : String} {r r' : ContentJobRow}
    → RowStep now who r r'
    → Allowed r.status r'.status
unfolding is_transition_allowed is_waiting same_status
RowStep-Allowed stays = inl refl
RowStep-Allowed (acquires d o) = ground arith
RowStep-Allowed (renews d h) = inl refl
RowStep-Allowed (stages stage h) = inl refl
RowStep-Allowed {now} {who} {r} (completes _ h) = ground (arith, leased-processing now who r h)
RowStep-Allowed {now} {who} {r} (retries _ _ _ h) = ground (arith, leased-processing now who r h)
RowStep-Allowed {now} {who} {r} (fails _ _ h) = ground (arith, leased-processing now who r h)
RowStep-Allowed (recovers exhausted _ h) = ground arith
RowStep-Allowed (cancels _ _ o) = ground arith

pub FreeStep-Allowed : {r r' : ContentJobRow} → FreeStep r r' → Allowed r.status r'.status
unfolding is_transition_allowed is_waiting same_status
FreeStep-Allowed keeps = inl refl
FreeStep-Allowed (claims at h) = ground arith
FreeStep-Allowed (moves_on stage at h) = inl refl
FreeStep-Allowed (ends_well _ _ _ h) = ground arith
FreeStep-Allowed (ends_badly _ _ _ _ h) = ground arith
FreeStep-Allowed (puts_off _ _ _ h) = ground arith
FreeStep-Allowed (calls_off _ _ h) = ground arith

-- A row in a terminal status never changes again.
pub RowStep-terminal :
    {now : ℕ} {who : String} {r r' : ContentJobRow}
    → RowStep now who r r'
    → is_terminal r.status ≡ true
    → r' ≡ r
unfolding is_terminal is_waiting same_status
RowStep-terminal stays t = refl
RowStep-terminal (acquires d o) t = absurd (ground arith)
RowStep-terminal {now} {who} {r} (renews d h) t =
    absurd (ground (arith, leased-processing now who r h))
RowStep-terminal {now} {who} {r} (stages stage h) t =
    absurd (ground (arith, leased-processing now who r h))
RowStep-terminal {now} {who} {r} (completes _ h) t =
    absurd (ground (arith, leased-processing now who r h))
RowStep-terminal {now} {who} {r} (retries _ _ _ h) t =
    absurd (ground (arith, leased-processing now who r h))
RowStep-terminal {now} {who} {r} (fails _ _ h) t =
    absurd (ground (arith, leased-processing now who r h))
RowStep-terminal (recovers exhausted _ h) t = absurd (ground arith)
RowStep-terminal (cancels _ _ o) t = absurd (ground arith)

pub FreeStep-terminal :
    {r r' : ContentJobRow} → FreeStep r r' → is_terminal r.status ≡ true → r' ≡ r
unfolding is_terminal is_waiting same_status
FreeStep-terminal keeps t = refl
FreeStep-terminal (claims at h) t = absurd (ground arith)
FreeStep-terminal (moves_on stage at h) t = absurd (ground arith)
FreeStep-terminal (ends_well _ _ _ h) t = absurd (ground arith)
FreeStep-terminal (ends_badly _ _ _ _ h) t = absurd (ground arith)
FreeStep-terminal (puts_off _ _ _ h) t = absurd (ground arith)
FreeStep-terminal (calls_off _ _ h) t = absurd (ground arith)

-- a leased row has one worker
leased_same :
    (now : ℕ) (w v : String) (r : ContentJobRow)
    → is_leased_by now w r ≡ true
    → is_leased_by now v r ≡ true
    → w ≡ v
leased_same now w v r h k =
    owner r.lease_owner (&&-true _ _ (&&-true _ _ h).0).1 (&&-true _ _ (&&-true _ _ k).0).1
  where
    owner :
        (o : Option String)
        → holds (λ u. str_eq u w) o ≡ true
        → holds (λ u. str_eq u v) o ≡ true
        → w ≡ v
    owner none a b = cc
    owner (some u) a b = cc ((eq_iff u w).0 a, (eq_iff u v).0 b)

-- Of a leased row, a step is made by its worker, or changes nothing.
pub RowStep-leased :
    {now : ℕ} {who : String} {r r' : ContentJobRow} (w : String)
    → RowStep now who r r'
    → is_leased_by now w r ≡ true
    → (r' ≡ r) ⊎ (who ≡ w)
unfolding same_status is_waiting
RowStep-leased w stays l = inl refl
RowStep-leased w (acquires d o) l = absurd (ground arith)
RowStep-leased w (recovers exhausted _ h) l = absurd (ground arith)
RowStep-leased w (cancels _ _ o) l = absurd (ground arith)
RowStep-leased {now} {who} {r} w (renews _ h) l = inr (leased_same now who w r h l)
RowStep-leased {now} {who} {r} w (stages _ h) l = inr (leased_same now who w r h l)
RowStep-leased {now} {who} {r} w (completes _ h) l = inr (leased_same now who w r h l)
RowStep-leased {now} {who} {r} w (retries _ _ _ h) l = inr (leased_same now who w r h l)
RowStep-leased {now} {who} {r} w (fails _ _ h) l = inr (leased_same now who w r h l)
