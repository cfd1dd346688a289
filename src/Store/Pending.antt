-- ===== src/Store/Pending.antt =====
-- internal/store/memory.go: the queues of users that the agent of a node is to remove or to add.
pub mod Delivery
use Prim.Native.String.{◌++◌ as str_append}
use v2ray_platform.Base.{
  ℕ, suc, ◌+◌, ◌-◌, ◌*◌, ◌%◌, String, Option, List, [], ◌∷◌, ◌++◌, ◌==◌, eqb, if◌then◌else◌,
}
use v2ray_platform.Base.Decimal.{format_int}
use v2ray_platform.Base.Int64.{Int64, modulus}
use v2ray_platform.Base.Result.{Result, ok}
use v2ray_platform.Domain.{Time, PendingUserRemoval, PendingUserAddition}
use v2ray_platform.Store.State.{MemoryStore, Method, Env}

-- `UnixNano()`: the zero time is 62135596800 seconds before the Unix epoch
unfoldable pub unix_nano : Time → Int64
unix_nano t = (t + 4 * modulus - 62135596800000000000) % modulus

-- one round of the loop of `AddPendingUserRemovals`, with its two readings of the clock
unfoldable pub completed_removal : Time → Time → PendingUserRemoval → PendingUserRemoval
unfolding unix_nano
completed_removal t u r = record r {
  id = if r.id == "" then str_append "pr-" (format_int (unix_nano t)) else r.id;
  created_at = if eqb r.created_at 0 then u else r.created_at;
}

unfoldable pub add_removals : Env → ℕ → List PendingUserRemoval → MemoryStore → MemoryStore
unfolding completed_removal
add_removals e i [] s = s
add_removals e i (r ∷ rest) s = add_removals e (suc (suc i)) rest (record s {
  pending_removals = s.pending_removals ++ completed_removal (e.clock i) (e.clock (suc i)) r ∷ [];
})

unfoldable pub add_pending_user_removals : Env → List PendingUserRemoval → Method (Unit {0})
unfolding add_removals
add_pending_user_removals e removals s = (ok tt, add_removals e 0 removals s)

unfoldable pub completed_addition : Time → Time → PendingUserAddition → PendingUserAddition
unfolding unix_nano
completed_addition t u a = record a {
  id = if a.id == "" then str_append "pa-" (format_int (unix_nano t)) else a.id;
  created_at = if eqb a.created_at 0 then u else a.created_at;
}

unfoldable pub add_additions : Env → ℕ → List PendingUserAddition → MemoryStore → MemoryStore
unfolding completed_addition
add_additions e i [] s = s
add_additions e i (a ∷ rest) s = add_additions e (suc (suc i)) rest (record s {
  pending_additions =
      s.pending_additions ++ completed_addition (e.clock i) (e.clock (suc i)) a ∷ [];
})

unfoldable pub add_pending_user_additions : Env → List PendingUserAddition → Method (Unit {0})
unfolding add_additions
add_pending_user_additions e additions s = (ok tt, add_additions e 0 additions s)

-- the variables `out` and `remaining` after the loop
unfoldable pub split_removals :
    String
    → List PendingUserRemoval
    → List PendingUserRemoval
    → List PendingUserRemoval
    → List PendingUserRemoval × List PendingUserRemoval
split_removals node_id [] out remaining = (out, remaining)
split_removals node_id (r ∷ rest) out remaining =
    let mine = r.node_id == node_id in
    split_removals node_id rest (if mine then out ++ r ∷ [] else out)
      (if mine then remaining else remaining ++ r ∷ [])

unfoldable pub get_and_clear_pending_removals : String → Method (List PendingUserRemoval)
unfolding split_removals
get_and_clear_pending_removals node_id s =
    let (out, remaining) = split_removals node_id s.pending_removals [] [] in
    (ok out, record s { pending_removals = remaining })

unfoldable pub split_additions :
    String
    → List PendingUserAddition
    → List PendingUserAddition
    → List PendingUserAddition
    → List PendingUserAddition × List PendingUserAddition
split_additions node_id [] out remaining = (out, remaining)
split_additions node_id (a ∷ rest) out remaining =
    let mine = a.node_id == node_id in
    split_additions node_id rest (if mine then out ++ a ∷ [] else out)
      (if mine then remaining else remaining ++ a ∷ [])

unfoldable pub get_and_clear_pending_additions : String → Method (List PendingUserAddition)
unfolding split_additions
get_and_clear_pending_additions node_id s =
    let (out, remaining) = split_additions node_id s.pending_additions [] [] in
    (ok out, record s { pending_additions = remaining })
