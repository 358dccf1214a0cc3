-- ===== src/Publish/Source/Queue.antt =====
-- Which job a worker gets, and what it holds then.
use roam_content_engine.Prelude.{ℕ, String, Bool, true, false, ◌≡◌, not, ◌&&◌, arith}
use roam_content_engine.Db.Order.{First, order_by-First}
use roam_content_engine.Publish.Types.{PublishJob, Tables}
use roam_content_engine.Publish.Source.{is_candidate, due_order, next_candidate}

due_order_refl : (x : PublishJob) → due_order x x ≡ true
unfolding due_order
due_order_refl x = ground arith

due_order_total : (x y : PublishJob) → due_order x y ≡ false → due_order y x ≡ true
unfolding due_order
due_order_total x y h = ground arith

due_order_trans :
    (x y z : PublishJob) → due_order x y ≡ true → due_order y z ≡ true → due_order x z ≡ true
unfolding due_order
due_order_trans x y z h k = ground arith

-- The candidate is a job of the table that is due, free and not locked by another transaction, and
-- comes before or with every other such job in the order of their due times, the older first; there
-- is none only if no job is due, free and not locked.
pub next_candidate-First :
    (now : ℕ) (locked : String → Bool) (t : Tables)
    → First
        (λ r. is_candidate now r && not (locked r.id))
        due_order
        t.publish_jobs
        (next_candidate now locked t)
unfolding next_candidate
next_candidate-First now locked t =
    order_by-First (λ r. is_candidate now r && not (locked r.id)) due_order due_order_refl
      due_order_total due_order_trans t.publish_jobs
