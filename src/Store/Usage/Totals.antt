-- ===== src/Store/Usage/Totals.antt =====
-- The sums over the usage snapshots agree with each other.
use v2ray_platform.Base.{
  String, ◌≡◌, ◌≢◌, refl, ◌∙◌, ap, false, Option, none, some, List, [], ◌∷◌, arith, ◌==◌, eq_iff,
  if◌then◌else◌, Bool-cases, inl, inr, ltb,
}
use v2ray_platform.Base.Int64.{Int64, add64}
use v2ray_platform.Maps.{Map, lookup, insert, lookup-insert}
use v2ray_platform.Domain.{Time, MemberUsageSummary}
use v2ray_platform.Store.State.{MemoryStore, MemoryUsageSnapshot}
use v2ray_platform.Store.Usage.{
  in_period, usage_since, get_member_usage_since, usage_since_split, get_member_usage_since_split,
  member_summary, grow_member_summary, member_summaries,
}

add64-swap : (a b x y : Int64) → add64 (add64 a b) (add64 x y) ≡ add64 (add64 a x) (add64 b y)
unfolding add64
add64-swap a b x y = omega arith

usage_since_split-cons :
    (m : String) (since : Time) (x : MemoryUsageSnapshot) (xs : List MemoryUsageSnapshot)
    (up down : Int64)
    → usage_since_split m since (x ∷ xs) up down
      ≡ usage_since_split m since xs
          (if in_period m since x then add64 up x.uplink_bytes else up)
          (if in_period m since x then add64 down x.downlink_bytes else down)
unfolding usage_since_split
usage_since_split-cons m since x xs up down = refl

usage_since-split :
    (m : String) (since : Time) (xs : List MemoryUsageSnapshot) (up down : Int64)
    → usage_since m since xs (add64 up down)
      ≡ add64 (usage_since_split m since xs up down).0 (usage_since_split m since xs up down).1
unfolding usage_since usage_since_split
usage_since-split m since [] up down = refl
usage_since-split m since (x ∷ xs) up down = elim (Bool-cases (in_period m since x)) [
  | inl e ↦
      rw (usage_since_split-cons, e, add64-swap up down x.uplink_bytes x.downlink_bytes)
        (usage_since-split m since xs (add64 up x.uplink_bytes) (add64 down x.downlink_bytes))
  | inr e ↦ rw (usage_since_split-cons, e) (usage_since-split m since xs up down)
]

-- The usage of a member since an instant is the sum, in 64 bits, of its uplink and its downlink
-- since that instant.
pub get_member_usage_since-split :
    (m : String) (since : Time) (s : MemoryStore)
    → get_member_usage_since m since s
      ≡ add64 (get_member_usage_since_split m since s).0 (get_member_usage_since_split m since s).1
unfolding get_member_usage_since get_member_usage_since_split add64
get_member_usage_since-split m since s = usage_since-split m since s.usage_snapshots 0 0

-- the total that a map of summaries has for a member
abbrev pub total_of : Option MemberUsageSummary → Int64
total_of none = 0
total_of (some u) = u.total_bytes

total-grow :
    (s : MemoryStore) (m : String) (x : MemoryUsageSnapshot) (o : Option MemberUsageSummary)
    → (grow_member_summary x (member_summary s m o)).total_bytes
      ≡ add64 (total_of o) (add64 x.uplink_bytes x.downlink_bytes)
unfolding grow_member_summary member_summary
total-grow s m x none = refl
total-grow s m x (some u) = refl

-- one round of the loop
abbrev add_snapshot :
    MemoryStore → MemoryUsageSnapshot → Map MemberUsageSummary → Map MemberUsageSummary
add_snapshot s x acc =
    if x.member_id == ""
    then acc
    else insert x.member_id
        (grow_member_summary x (member_summary s x.member_id (lookup x.member_id acc))) acc

add_snapshot-total :
    (s : MemoryStore) (m : String) (x : MemoryUsageSnapshot) (acc : Map MemberUsageSummary)
    → m ≢ ""
    → total_of (lookup m (add_snapshot s x acc)) ≡ (
        if in_period m 0 x
        then add64 (total_of (lookup m acc)) (add64 x.uplink_bytes x.downlink_bytes)
        else total_of (lookup m acc))
unfolding in_period
add_snapshot-total s m x acc h = elim (Bool-cases (x.member_id == m)) [
  | inl e ↦
      let named : (x.member_id == "") ≡ false =
        ground (arith, eq_iff x.member_id "", eq_iff x.member_id m) in
      let late : ltb x.collected_at 0 ≡ false = ground arith in
      rw (named, lookup-insert, e, late)
        (total-grow s x.member_id x (lookup x.member_id acc)
          ∙ ap (λ k. add64 (total_of (lookup k acc)) (add64 x.uplink_bytes x.downlink_bytes))
              ((eq_iff x.member_id m).0 e))
  | inr e ↦ elim (Bool-cases (x.member_id == "")) [
    | inl blank ↦ rw (blank, e)
    | inr named ↦ rw (named, lookup-insert, e)
  ]
]

member_summaries-total :
    (s : MemoryStore) (m : String) (xs : List MemoryUsageSnapshot) (acc : Map MemberUsageSummary)
    → m ≢ ""
    → total_of (lookup m (member_summaries s xs acc)) ≡ usage_since m 0 xs (total_of (lookup m acc))
unfolding member_summaries usage_since
member_summaries-total s m [] acc h = refl
member_summaries-total s m (x ∷ xs) acc h =
    member_summaries-total s m xs (add_snapshot s x acc) h
    ∙ ap (λ t. usage_since m 0 xs t) (add_snapshot-total s m x acc h)

-- In the summaries of all members, the total of a member is the usage of that member since the
-- zero time; a member without a summary has used nothing.
pub member_summaries-usage :
    (m : String) (s : MemoryStore)
    → m ≢ ""
    → total_of (lookup m (member_summaries s s.usage_snapshots [])) ≡ get_member_usage_since m 0 s
unfolding get_member_usage_since lookup
member_summaries-usage m s h = member_summaries-total s m s.usage_snapshots [] h
