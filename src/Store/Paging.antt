-- ===== src/Store/Paging.antt =====
-- The pages of internal/store: `pageParams` of postgres.go, and the lists of sync events and of
-- audit logs of memory.go. Go's `int` has 64 bits.
pub mod Pages
use v2ray_platform.Base.{
  ℕ, suc, ◌+◌, ◌*◌, ◌%◌, ◌-◌, String, Bool, ◌||◌, Option, none, some, List, [], ◌∷◌, ◌++◌, ◌==◌,
  ltb, leb, if◌then◌else◌, length, take, drop,
}
use v2ray_platform.Base.Int64.{Int64, add64, sub64, lt64, le64, modulus, min_negative}
use v2ray_platform.Base.Result.{Result, ok}
use v2ray_platform.Base.Sort.{sort_slice}
use v2ray_platform.Domain.{NodeSyncEvent, AuditLog}
use v2ray_platform.Store.State.{MemoryStore, Method, Env}

-- `(page - 1) * limit, limit`, with the defaults for values that are too small
unfoldable pub page_params : Int64 → Int64 → Int64 × Int64
page_params page limit =
    let lim = if le64 limit 0 then 100000 else limit in
    let p = if lt64 page 1 then 1 else page in ((sub64 p 1 * lim) % modulus, lim)

-- What a slice expression gives: its elements, or a run-time panic.
pub data Sliced {ℓ} (A : Type ℓ) : Type ℓ where
  slice : List A → Sliced A
  panic : Sliced A

-- `all[low:high]`
unfoldable pub slice_of {ℓ} : {A : Type ℓ} → List A → Int64 → Int64 → Sliced A
slice_of all low high =
    if ltb high low || ltb (length all) high
    then panic
    else slice (take (high - low) (drop low all))

-- the end of both methods: the page of the list
unfoldable pub page_of {ℓ} : {A : Type ℓ} → List A → Int64 → Int64 → Sliced A
unfolding page_params slice_of
page_of all page limit =
    let (offset, lim) = page_params page limit in
    let end' = add64 offset lim in
    if le64 (length all) offset
    then slice []
    else slice_of all offset (if lt64 (length all) end' then length all else end')

unfoldable pub events_of : String → List NodeSyncEvent → List NodeSyncEvent
events_of node_id [] = []
events_of node_id (x ∷ rest) =
    let others = events_of node_id rest in
    if (node_id == "") || x.node_id == node_id then x ∷ others else others

-- `ListNodeSyncEvents`, newest first, with the number of all events
unfoldable pub list_node_sync_events :
    String → Int64 → Int64 → MemoryStore → Sliced NodeSyncEvent × Int64
unfolding events_of page_of
list_node_sync_events node_id page limit s =
    let all =
      sort_slice (λ a b. ltb b.occurred_at a.occurred_at) (events_of node_id s.sync_events) in
    (page_of all page limit, length all)

-- the text of the payload is that of `marshalAuditPayload`
unfoldable pub record_audit_log :
    Env → String → String → String → String → String → Method (Unit {0})
record_audit_log e actor_admin_id action target_type target_id payload s = (
  ok tt,
  record s {
    audit_logs =
        s.audit_logs
        ++ record {
          id = length s.audit_logs + 1;
          actor_admin_id = actor_admin_id;
          action = action;
          target_type = target_type;
          target_id = target_id;
          payload = payload;
          created_at = e.clock 0;
        }
          ∷ [];
  },
)

unfoldable pub list_audit_logs : Int64 → Int64 → MemoryStore → Sliced AuditLog × Int64
unfolding page_of
list_audit_logs page limit s =
    let all = sort_slice (λ a b. ltb b.created_at a.created_at) s.audit_logs in
    (page_of all page limit, length all)
