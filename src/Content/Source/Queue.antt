-- ===== src/Content/Source/Queue.antt =====
-- Which content job a worker gets.
use roam_content_engine.Prelude.{ℕ, String, Bool, not, ◌&&◌, arith}
use roam_content_engine.Db.Order.{First, order_by-First}
use roam_content_engine.Content.Types.{Tables}
use roam_content_engine.Content.Source.{is_candidate, age_order, next_candidate}

-- The job that a worker is offered is one of the table that is due, free and not locked by another
-- transaction, and no other such job is older; none is offered only if there is none.
pub oldest_candidate :
    (now : ℕ) (locked : String → Bool) (t : Tables)
    → First
        (λ r. is_candidate now r && not (locked r.id))
        age_order
        t.content_jobs
        (next_candidate now locked t)
unfolding next_candidate
oldest_candidate now locked t =
    order_by-First (λ r. is_candidate now r && not (locked r.id)) age_order (λ x. ground arith)
      (λ x y h. ground arith) (λ x y z h k. ground arith) t.content_jobs
