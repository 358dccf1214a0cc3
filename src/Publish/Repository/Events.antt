-- ===== src/Publish/Repository/Events.antt =====
-- DrizzlePublishJobRepository.listEvents, and what it may show.
use roam_content_engine.Prelude.{
  String, Bool, true, List, [], ◌∷◌, ◌≡◌, ◌&&◌, &&-true, leb, str_eq, eq_iff, select, All,
}
use roam_content_engine.Db.{Db, Session, ok, ◌>>◌, query, translating, order_by}
use roam_content_engine.Db.Ensures.{Ensures-bind, Ensures-translating, Ensures-query}
use roam_content_engine.Db.Order.{All-select, All-order_by}
use roam_content_engine.Publish.Types.{PublishJobEvent, Tables}
use roam_content_engine.Publish.Repository.Leases.{validate_tenant_id}

abbrev is_event_of : String → String → PublishJobEvent → Bool
is_event_of tenant_id job_id e = str_eq e.tenant_id tenant_id && str_eq e.publish_job_id job_id

-- `orderBy(asc(createdAt))`
abbrev event_order : PublishJobEvent → PublishJobEvent → Bool
event_order a b = leb a.created_at b.created_at

unfoldable pub list_events : String → String → Db Tables (List PublishJobEvent)
list_events tenant_id job_id = do
  validate_tenant_id tenant_id
  translating "Unable to list publish job events." (
      query
        λ t _. order_by event_order (select (is_event_of tenant_id job_id) t.publish_job_events))

-- the event belongs to that job of that tenant
abbrev pub IsEventOf : String → String → PublishJobEvent → Type 0
IsEventOf tenant_id job_id e = (e.tenant_id ≡ tenant_id) × (e.publish_job_id ≡ job_id)

All-IsEventOf :
    (tenant_id job_id : String) (es : List PublishJobEvent)
    → All (λ e. is_event_of tenant_id job_id e ≡ true) es
    → All (IsEventOf tenant_id job_id) es
All-IsEventOf tenant_id job_id [] h = tt
All-IsEventOf tenant_id job_id (e ∷ es) h =
    let both = &&-true (str_eq e.tenant_id tenant_id) (str_eq e.publish_job_id job_id) h.0 in
    (
      ((eq_iff e.tenant_id tenant_id).0 both.0, (eq_iff e.publish_job_id job_id).0 both.1),
      All-IsEventOf tenant_id job_id es h.1,
    )

-- Whatever list is returned, each of its events belongs to the given job of the given tenant.
pub list_events-IsEventOf :
    (tenant_id job_id : String) (s : Session Tables) (es : List PublishJobEvent)
    → (list_events tenant_id job_id s).0 ≡ ok es
    → All (IsEventOf tenant_id job_id) es
unfolding list_events
list_events-IsEventOf tenant_id job_id =
    (Ensures-bind (λ es _. All (IsEventOf tenant_id job_id) es) _ _
      (λ _. Ensures-translating _ _ _ (
        Ensures-query _ _ (λ t locked. All-IsEventOf tenant_id job_id _ (
          All-order_by _ event_order _
            (All-select (is_event_of tenant_id job_id) t.publish_job_events)))))).at
