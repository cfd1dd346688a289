-- ===== src/Monitor/Sweep/Treatment.antt =====
-- internal/ops/monitor.go: what the policies ask for a member, apart from the code that decides it.
use v2ray_platform.Base.{
  ◌≤◌, String, ◌≡◌, ◌≢◌, refl, true, false, none, some, eqb, ◌==◌, eq_iff, arith, ◌⊎◌, Bool-cases,
  Option-cases, inl, inr, if◌then◌else◌,
}
use v2ray_platform.Base.Int64.{Int64, lt64, le64}
use v2ray_platform.Maps.{Map, lookup}
use v2ray_platform.Domain.{Time, Member, Tier, member_status_active, member_status_expired}
use v2ray_platform.Store.State.{MemoryStore}
use v2ray_platform.Store.Usage.{get_member_usage_since}
use v2ray_platform.Monitor.Sweep.{
  Calendar, verdict, quota_verdict, used_bytes, total_or_zero, is_due, tier_quota, effective_quota,
}
use v2ray_platform.Monitor.Sweep.Changed.{swept_member}

-- the member belongs to no tier that has a quota
abbrev pub HasNoTierQuota : Map Tier → Member → Type 0
HasNoTierQuota tiers m =
    (m.tier_id ≡ "")
    ⊎ (lookup m.tier_id tiers ≡ none)
    ⊎ ((tier : Tier) × (lookup m.tier_id tiers ≡ some tier) × (lt64 0 tier.quota_bytes ≡ false))

-- The quota that binds a member, and its type: that of the tier, or else the member's own.
pub data HasQuota (tiers : Map Tier) (m : Member) : Int64 → String → Type 0 where
  of_tier :
      (tier : Tier)
      → m.tier_id ≢ ""
      → lookup m.tier_id tiers ≡ some tier
      → lt64 0 tier.quota_bytes ≡ true
      → HasQuota tiers m tier.quota_bytes tier.quota_type
  of_member :
      HasNoTierQuota tiers m
      → lt64 0 m.quota_bytes_limit ≡ true
      → HasQuota tiers m m.quota_bytes_limit "fixed"

-- The expiry of the member, one that is neither archived nor marked as expired yet, has been reached.
pub record IsOverdue (now : Time) (m : Member) : Type 0 where
  pub not_archived : m.status ≢ "archived"
  pub not_expired : m.status ≢ "expired"
  pub expiry : Time
  pub expires : m.expires_at ≡ some expiry
  pub is_past : expiry ≤ now

module _ (c : Calendar) (now : Time) (totals : Map Int64) (tiers : Map Tier) (s : MemoryStore)
    (m : Member) where
  -- the bytes that a quota of a type is compared with
  pub data IsUsed : String → Int64 → Type 0 where
    this_month : IsUsed "monthly" (get_member_usage_since m.id (c.month_start now) s)
    all_time :
        (quota_type : String) (used : Int64)
        → quota_type ≢ "monthly"
        → lookup m.id totals ≡ some used
        → IsUsed quota_type used
    nothing :
        (quota_type : String)
        → quota_type ≢ "monthly"
        → lookup m.id totals ≡ none
        → IsUsed quota_type 0

  -- why a member that is not overdue stays as it is
  pub data IsKept : Type 0 where
    not_active : m.status ≢ "active" → IsKept
    no_quota : HasNoTierQuota tiers m → lt64 0 m.quota_bytes_limit ≡ false → IsKept
    below_quota :
        (quota used : Int64) (quota_type : String)
        → HasQuota tiers m quota quota_type
        → IsUsed quota_type used
        → le64 quota used ≡ false
        → IsKept

  -- what becomes of the member at an instant
  pub data Treatment (at : Time) : Member → Type 0 where
    expire :
        IsOverdue now m
        → Treatment at (record m {
          status = "expired";
          disabled_reason = "expired automatically by control-plane policy";
          updated_at = at;
        })
    suspend :
        (quota used : Int64) (quota_type : String)
        → ¬ IsOverdue now m
        → m.status ≡ "active"
        → HasQuota tiers m quota quota_type
        → IsUsed quota_type used
        → le64 quota used ≡ true
        → Treatment at (record m {
          status = "suspended";
          disabled_reason = "quota exceeded automatically by control-plane policy";
          updated_at = at;
        })
    leave : ¬ IsOverdue now m → IsKept → Treatment at m

IsOverdue-is_due : (now : Time) (m : Member) → is_due now m ≡ true → IsOverdue now m
unfolding is_due
IsOverdue-is_due now m due = elim (Option-cases m.expires_at) [
  | inl none_set ↦ let due' = rw (none_set) at due in absurd (ground (arith, due'))
  | inr (t, set) ↦
      let at_due = rw (set) at due in
      record {
        not_archived = λ e. cc (rw (e) at due);
        not_expired = λ e. ground (arith, at_due, eq_iff m.status member_status_expired);
        expiry = t;
        expires = set;
        is_past = ground arith;
      }
]

not-IsOverdue : (now : Time) (m : Member) → is_due now m ≡ false → ¬ IsOverdue now m
unfolding is_due
not-IsOverdue now m calm late =
    let calm' = rw (late.expires) at calm in
    let past = late.is_past in
    let a = late.not_archived in
    let b = late.not_expired in
    ground (arith, calm', past, a, b, eq_iff m.status "archived", eq_iff m.status "expired")

nonzero : (q : Int64) → lt64 0 q ≡ true → eqb q 0 ≡ false
unfolding lt64
nonzero q large = elim (Bool-cases (eqb q 0)) [
  | inr other ↦ other
  | inl zero ↦ let e : q ≡ 0 = ground arith in cc (rw (e) at large)
]

-- the member's own quota, if it has one
abbrev own_quota : Member → Int64 × String
own_quota m = if lt64 0 m.quota_bytes_limit then (m.quota_bytes_limit, "fixed") else (0, "fixed")

module _ (tiers : Map Tier) (m : Member) where
  quota_without_tier : HasNoTierQuota tiers m → effective_quota tiers m ≡ own_quota m
  unfolding effective_quota tier_quota
  quota_without_tier (inl blank) = rw (blank) refl
  quota_without_tier (inr (inl missing)) = elim (Bool-cases (m.tier_id == "")) [
    | inl blank ↦ rw (blank) refl
    | inr named ↦ rw (named, missing) refl
  ]
  quota_without_tier (inr (inr (tier, found, empty))) = elim (Bool-cases (m.tier_id == "")) [
    | inl blank ↦ rw (blank) refl
    | inr named ↦ rw (named, found, empty) refl
  ]

  quota_of_tier :
      (tier : Tier)
      → (m.tier_id == "") ≡ false
      → lookup m.tier_id tiers ≡ some tier
      → lt64 0 tier.quota_bytes ≡ true
      → effective_quota tiers m ≡ (tier.quota_bytes, tier.quota_type)
  unfolding effective_quota tier_quota
  quota_of_tier tier named found large =
      rw (named, found, large, nonzero tier.quota_bytes large) refl

  -- The quota of a pair of a number and a type binds the member, or the number is zero and none does.
  abbrev Binds : Int64 × String → Type 0
  Binds quota =
      (HasQuota tiers m quota.0 quota.1 × (eqb quota.0 0 ≡ false))
      ⊎ (HasNoTierQuota tiers m × (lt64 0 m.quota_bytes_limit ≡ false) × (eqb quota.0 0 ≡ true))

  own_quota-Binds : HasNoTierQuota tiers m → Binds (own_quota m)
  own_quota-Binds free = elim (Bool-cases (lt64 0 m.quota_bytes_limit)) [
    | inl large ↦ rw (large, nonzero m.quota_bytes_limit large) (inl (of_member free large, refl))
    | inr empty ↦ rw (empty) (inr (free, refl, refl))
  ]

  effective_quota-Binds : Binds (effective_quota tiers m)
  effective_quota-Binds = elim (Bool-cases (m.tier_id == "")) [
    | inl blank ↦ unbound (inl ((eq_iff m.tier_id "").0 blank))
    | inr named ↦ elim (Option-cases (lookup m.tier_id tiers)) [
      | inl missing ↦ unbound (inr (inl missing))
      | inr (tier, found) ↦ elim (Bool-cases (lt64 0 tier.quota_bytes)) [
        | inr empty ↦ unbound (inr (inr (tier, found, empty)))
        | inl large ↦ rw (quota_of_tier tier named found large) (
            inl (
              of_tier tier (λ e. cc (rw (e) at named)) found large,
              nonzero tier.quota_bytes large,
            ))
      ]
    ]
  ]
    where
      unbound : HasNoTierQuota tiers m → Binds (effective_quota tiers m)
      unbound free = rw (quota_without_tier free) (own_quota-Binds free)

module _ (c : Calendar) (now : Time) (totals : Map Int64) (tiers : Map Tier) (s : MemoryStore)
    (m : Member) where
  used_bytes-IsUsed :
      (quota_type : String)
      → IsUsed c now totals tiers s m quota_type (used_bytes c now totals tiers s quota_type m)
  unfolding used_bytes total_or_zero
  used_bytes-IsUsed quota_type = elim (Bool-cases (quota_type == "monthly")) [
    | inl monthly ↦
        let e : quota_type ≡ "monthly" = (eq_iff quota_type "monthly").0 monthly in
        rw (e) this_month
    | inr other ↦ rw (other) (elim (Option-cases (lookup m.id totals)) [
      | inl missing ↦ rw (missing) (nothing quota_type (λ e. cc (rw (e) at other)) missing)
      | inr (used, found) ↦ rw (found) (all_time quota_type used (λ e. cc (rw (e) at other)) found)
    ])
  ]

  -- The code's verdict on a member is the treatment that the policies ask for.
  pub verdict-Treatment :
      (at : Time)
      → Treatment c now totals tiers s m at (swept_member (verdict c now totals tiers s m) at m)
  unfolding verdict
  verdict-Treatment at = elim (Bool-cases (is_due now m)) [
    | inl due ↦ rw (due) (expire (IsOverdue-is_due now m due))
    | inr calm ↦ rw (calm) (by_quota (not-IsOverdue now m calm))
  ]
    where
      quota : Int64
      quota = (effective_quota tiers m).0

      quota_type : String
      quota_type = (effective_quota tiers m).1

      used : Int64
      used = used_bytes c now totals tiers s quota_type m

      by_quota :
          ¬ IsOverdue now m
          → Treatment c now totals tiers s m at
              (swept_member (quota_verdict c now totals tiers s m (effective_quota tiers m)) at m)
      by_quota calm =
          unfold quota_verdict in
          elim (effective_quota-Binds tiers m) [
            | inr (free, empty, zero) ↦ rw (zero) (leave calm (no_quota free empty))
            | inl (bound, nonzero) ↦ elim (Bool-cases (m.status == member_status_active)) [
              | inr idle ↦ rw (nonzero, idle) (leave calm (not_active (λ e. cc (rw (e) at idle))))
              | inl active ↦ elim (Bool-cases (le64 quota used)) [
                | inl over ↦
                    rw (nonzero, active, over)
                      (suspend quota used quota_type calm ((eq_iff m.status "active").0 active)
                        bound (used_bytes-IsUsed quota_type) over)
                | inr under ↦
                    rw (nonzero, active, under)
                      (leave calm (
                        below_quota quota used quota_type bound (used_bytes-IsUsed quota_type)
                          under))
              ]
            ]
          ]
