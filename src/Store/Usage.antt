-- ===== src/Store/Usage.antt =====
-- internal/store/memory.go: usage snapshots, and the sums over them.
pub mod Totals
use v2ray_platform.Base.{
  ℕ, suc, String, Bool, true, false, not, ◌&&◌, Option, none, some, List, [], ◌∷◌, ◌++◌, ◌==◌, ltb,
  eqb, if◌then◌else◌,
}
use v2ray_platform.Base.Int64.{Int64, add64}
use v2ray_platform.Base.Result.{Result, ok, err}
use v2ray_platform.Base.Sort.{sort_slice, str_lt}
use v2ray_platform.Maps.{Map, values, lookup, insert, find_entry}
use v2ray_platform.Domain.{
  Time, Node, Member, NodeCredential, UsageSnapshot, NodeUsageSummary, MemberUsageSummary,
}
use v2ray_platform.Store.State.{MemoryStore, MemoryUsageSnapshot, Method, Env}
use v2ray_platform.Store.Rebuild.{keys_of}
use v2ray_platform.Store.Nodes.{find_node_by_token_locked}

abbrev member_of_credential : Option (String × NodeCredential) → String
member_of_credential none = ""
member_of_credential (some (k, c)) = c.member_id

abbrev has_uuid : String → Option Member → Bool
has_uuid uuid none = false
has_uuid uuid (some m) = m.uuid == uuid

-- the first member of a group with the UUID
unfoldable pub find_candidate : MemoryStore → String → List String → String
find_candidate s uuid [] = ""
find_candidate s uuid (member_id ∷ rest) =
    if has_uuid uuid (lookup member_id s.members) then member_id else find_candidate s uuid rest

unfoldable pub find_in_groups : MemoryStore → String → List String → String
unfolding find_candidate
find_in_groups s uuid [] = ""
find_in_groups s uuid (group_id ∷ rest) =
    let found = find_candidate s uuid (keys_of (lookup group_id s.group_grants)) in
    if found == "" then find_in_groups s uuid rest else found

-- the member that a snapshot is booked on, or the empty text
unfoldable pub owner_of : MemoryStore → String → String → String
unfolding find_in_groups
owner_of s node_id uuid =
    let direct =
      member_of_credential
        (find_entry (λ c. c.node_id == node_id && c.uuid == uuid) s.credentials) in
    if direct == ""
    then find_in_groups s uuid (keys_of (lookup node_id s.node_group_nodes))
    else direct

unfoldable pub booked : Time → String → MemoryStore → UsageSnapshot → MemoryUsageSnapshot
unfolding owner_of
booked now node_id s x = record {
  node_id = node_id;
  member_id = owner_of s node_id x.credential_uuid;
  credential_uuid = x.credential_uuid;
  uplink_bytes = x.uplink_bytes;
  downlink_bytes = x.downlink_bytes;
  collected_at = if eqb x.collected_at 0 then now else x.collected_at;
}

-- the loop over the snapshots; the clock is read at most once for each
unfoldable pub record_loop : Env → ℕ → String → List UsageSnapshot → MemoryStore → MemoryStore
unfolding booked
record_loop e i node_id [] s = s
record_loop e i node_id (x ∷ rest) s =
    record_loop e (suc i) node_id rest
      (record s { usage_snapshots = s.usage_snapshots ++ booked (e.clock i) node_id s x ∷ [] })

unfoldable pub record_found :
    Env
    → List UsageSnapshot
    → MemoryStore
    → Result (String × Node)
    → Result (Unit {0}) × MemoryStore
unfolding record_loop
record_found e snapshots s (err x) = (err x, s)
record_found e snapshots s (ok (k, n)) = (ok tt, record_loop e 0 n.id snapshots s)

unfoldable pub record_usage : Env → String → List UsageSnapshot → Method (Unit {0})
unfolding record_found
record_usage e node_token snapshots s =
    record_found e snapshots s (find_node_by_token_locked e node_token s)

-- of the member, and not collected before `since`
unfoldable pub in_period : String → Time → MemoryUsageSnapshot → Bool
in_period member_id since x = x.member_id == member_id && not (ltb x.collected_at since)

unfoldable pub usage_since : String → Time → List MemoryUsageSnapshot → Int64 → Int64
unfolding in_period
usage_since member_id since [] total = total
usage_since member_id since (x ∷ rest) total = usage_since member_id since rest (
    if in_period member_id since x
    then add64 total (add64 x.uplink_bytes x.downlink_bytes)
    else total)

unfoldable pub get_member_usage_since : String → Time → MemoryStore → Int64
unfolding usage_since
get_member_usage_since member_id since s = usage_since member_id since s.usage_snapshots 0

unfoldable pub usage_since_split :
    String → Time → List MemoryUsageSnapshot → Int64 → Int64 → Int64 × Int64
unfolding in_period
usage_since_split member_id since [] up down = (up, down)
usage_since_split member_id since (x ∷ rest) up down =
    let hit = in_period member_id since x in
    usage_since_split member_id since rest (if hit then add64 up x.uplink_bytes else up)
      (if hit then add64 down x.downlink_bytes else down)

unfoldable pub get_member_usage_since_split : String → Time → MemoryStore → Int64 × Int64
unfolding usage_since_split
get_member_usage_since_split member_id since s =
    usage_since_split member_id since s.usage_snapshots 0 0

-- the summary that a snapshot of a member is added to
unfoldable pub member_summary :
    MemoryStore → String → Option MemberUsageSummary → MemberUsageSummary
member_summary s member_id (some u) = u
member_summary s member_id none =
    let name_email : String × String = elim (lookup member_id s.members) [
      | none ↦ ("", "")
      | some m ↦ (m.name, m.email)
    ] in
    record {
      member_id = member_id;
      member_name = name_email.0;
      member_email = name_email.1;
      uplink_bytes = 0;
      downlink_bytes = 0;
      total_bytes = 0;
      snapshot_count = 0;
    }

unfoldable pub grow_member_summary : MemoryUsageSnapshot → MemberUsageSummary → MemberUsageSummary
grow_member_summary x u = record u {
  uplink_bytes = add64 u.uplink_bytes x.uplink_bytes;
  downlink_bytes = add64 u.downlink_bytes x.downlink_bytes;
  total_bytes = add64 u.total_bytes (add64 x.uplink_bytes x.downlink_bytes);
  snapshot_count = add64 u.snapshot_count 1;
}

unfoldable pub member_summaries :
    MemoryStore → List MemoryUsageSnapshot → Map MemberUsageSummary → Map MemberUsageSummary
unfolding member_summary grow_member_summary
member_summaries s [] acc = acc
member_summaries s (x ∷ rest) acc = member_summaries s rest (
    if x.member_id == ""
    then acc
    else insert x.member_id
        (grow_member_summary x (member_summary s x.member_id (lookup x.member_id acc))) acc)

unfoldable pub list_member_usage_summaries : MemoryStore → List MemberUsageSummary
unfolding member_summaries
list_member_usage_summaries s =
    sort_slice (λ a b. str_lt a.member_email b.member_email)
      (values (member_summaries s s.usage_snapshots []))

unfoldable pub node_summary : MemoryStore → String → Option NodeUsageSummary → NodeUsageSummary
node_summary s node_id (some u) = u
node_summary s node_id none = record {
  node_id = node_id;
  node_name = elim (lookup node_id s.nodes) [ none ↦ "" | some n ↦ n.name ];
  uplink_bytes = 0;
  downlink_bytes = 0;
  total_bytes = 0;
  snapshot_count = 0;
}

unfoldable pub grow_node_summary : MemoryUsageSnapshot → NodeUsageSummary → NodeUsageSummary
grow_node_summary x u = record u {
  uplink_bytes = add64 u.uplink_bytes x.uplink_bytes;
  downlink_bytes = add64 u.downlink_bytes x.downlink_bytes;
  total_bytes = add64 u.total_bytes (add64 x.uplink_bytes x.downlink_bytes);
  snapshot_count = add64 u.snapshot_count 1;
}

unfoldable pub node_summaries :
    MemoryStore → List MemoryUsageSnapshot → Map NodeUsageSummary → Map NodeUsageSummary
unfolding node_summary grow_node_summary
node_summaries s [] acc = acc
node_summaries s (x ∷ rest) acc =
    node_summaries s rest
      (insert x.node_id (grow_node_summary x (node_summary s x.node_id (lookup x.node_id acc))) acc)

unfoldable pub list_node_usage_summaries : MemoryStore → List NodeUsageSummary
unfolding node_summaries
list_node_usage_summaries s =
    sort_slice (λ a b. str_lt a.node_name b.node_name)
      (values (node_summaries s s.usage_snapshots []))
