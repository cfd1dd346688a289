-- ===== src/Monitor/Sweep.antt =====
-- internal/ops/monitor.go: `SweepMemberPolicies` over the in-memory store.
pub mod Changed
pub mod Treatment
pub mod Enforced
use v2ray_platform.Base.{
  ℕ, suc, String, Bool, true, false, not, ◌&&◌, ◌||◌, Option, none, some, List, [], ◌∷◌, ◌==◌, leb,
  eqb, if◌then◌else◌,
}
use v2ray_platform.Base.Int64.{Int64, lt64, le64}
use v2ray_platform.Base.Result.{Error, Result, ok, err}
use v2ray_platform.Maps.{Map, lookup, insert}
use v2ray_platform.Domain.{
  Time, Member, Tier, MemberUsageSummary, MemberStatus, member_status_active,
  member_status_suspended, member_status_expired, member_status_archived,
}
use v2ray_platform.Store.State.{MemoryStore, Env, UpdateMemberInput}
use v2ray_platform.Store.Members.{update_member, list_members}
use v2ray_platform.Store.Usage.{get_member_usage_since, list_member_usage_summaries}
use v2ray_platform.Store.Tiers.{list_tiers}
use v2ray_platform.Store.Paging.{record_audit_log}

-- the start of an instant's month, and the JSON of what is audited
pub record Calendar : Type 0 where
  pub month_start : Time → Time
  pub expired_payload : Option Time → String
  pub suspended_payload : Int64 → String → Int64 → String

unfoldable pub usage_totals : List MemberUsageSummary → Map Int64 → Map Int64
usage_totals [] totals = totals
usage_totals (usage ∷ rest) totals =
    usage_totals rest (insert usage.member_id usage.total_bytes totals)

unfoldable pub tiers_by_id : List Tier → Map Tier → Map Tier
tiers_by_id [] tiers = tiers
tiers_by_id (tier ∷ rest) tiers = tiers_by_id rest (insert tier.id tier tiers)

-- `usageAllTime[id]`, where a missing key is zero
unfoldable pub total_or_zero : Option Int64 → Int64
total_or_zero none = 0
total_or_zero (some total) = total

abbrev pub reached : Option Time → Time → Bool
reached none now = false
reached (some expires_at) now = leb expires_at now

-- not archived, past its expiry, and not marked as expired yet
unfoldable pub is_due : Time → Member → Bool
is_due now member =
    not (member.status == member_status_archived)
    && reached member.expires_at now
    && not (member.status == member_status_expired)

unfoldable pub tier_quota : Option Tier → Int64 × String
tier_quota none = (0, "fixed")
tier_quota (some tier) =
    if lt64 0 tier.quota_bytes then (tier.quota_bytes, tier.quota_type) else (0, "fixed")

-- the variables `effectiveQuota` and `quotaType`
unfoldable pub effective_quota : Map Tier → Member → Int64 × String
unfolding tier_quota
effective_quota tiers member =
    let by_tier =
      if member.tier_id == "" then (0, "fixed") else tier_quota (lookup member.tier_id tiers) in
    if eqb by_tier.0 0 && lt64 0 member.quota_bytes_limit
    then (member.quota_bytes_limit, by_tier.1)
    else by_tier

abbrev pub status_change : MemberStatus → String → UpdateMemberInput
status_change status reason = record {
  name = none;
  email = none;
  note = none;
  uuid = none;
  tier_id = none;
  status = some status;
  expires_at = none;
  clear_expiry = false;
  quota_bytes_limit = none;
  disabled_reason = some reason;
}

abbrev pub expired_reason : String
expired_reason = "expired automatically by control-plane policy"

abbrev pub suspended_reason : String
suspended_reason = "quota exceeded automatically by control-plane policy"

-- What the sweep does to a member: nothing, or a change of its status with the audit of it.
pub data Verdict : Type 0 where
  keep : Verdict
  change : MemberStatus → String → String → String → Verdict

-- the fields that the loop reads, and the member's usage by the type of the quota
module _ (c : Calendar) (now : Time) (totals : Map Int64) (tiers : Map Tier) (s : MemoryStore) where
  unfoldable pub used_bytes : String → Member → Int64
  unfolding total_or_zero
  used_bytes quota_type member =
      if quota_type == "monthly"
      then get_member_usage_since member.id (c.month_start now) s
      else total_or_zero (lookup member.id totals)

  unfoldable pub quota_verdict : Member → Int64 × String → Verdict
  unfolding used_bytes
  quota_verdict member (quota, quota_type) =
      if eqb quota 0 || not (member.status == member_status_active)
      then keep
      else if le64 quota (used_bytes quota_type member)
      then change member_status_suspended suspended_reason "member.auto_suspended_quota"
          (c.suspended_payload quota quota_type (used_bytes quota_type member))
      else keep

  unfoldable pub verdict : Member → Verdict
  unfolding quota_verdict is_due effective_quota
  verdict member =
      if is_due now member
      then change member_status_expired expired_reason "member.auto_expired"
          (c.expired_payload member.expires_at)
      else quota_verdict member (effective_quota tiers member)

-- The audit of a change that succeeded; its own error is dropped.
unfoldable pub audited :
    Env → String → String → String → Result Member × MemoryStore → Result (Unit {0}) × MemoryStore
audited e action member_id payload (err x, s) = (err x, s)
audited e action member_id payload (ok m, s) =
    (ok tt, (record_audit_log e "" action "member" member_id payload s).1)

-- one round of the loop, with the inputs of its two calls
unfoldable pub sweep_member :
    Env → Env → Member → Verdict → MemoryStore → Result (Unit {0}) × MemoryStore
unfolding audited
sweep_member e e' member keep s = (ok tt, s)
sweep_member e e' member (change status reason action payload) s =
    audited e' action member.id payload (update_member e member.id (status_change status reason) s)

-- goes on with the other members unless the round failed
unfoldable pub and_then :
    (MemoryStore → Result (Unit {0}) × MemoryStore)
    → Result (Unit {0}) × MemoryStore
    → Result (Unit {0}) × MemoryStore
and_then rest (err x, s) = (err x, s)
and_then rest (ok u, s) = rest s

module _ (c : Calendar) (envs : ℕ → Env) (now : Time) (totals : Map Int64) (tiers : Map Tier) where
  unfoldable pub sweep_loop : ℕ → List Member → MemoryStore → Result (Unit {0}) × MemoryStore
  unfolding sweep_member verdict and_then
  sweep_loop i [] s = (ok tt, s)
  sweep_loop i (member ∷ rest) s =
      and_then (sweep_loop (suc (suc i)) rest)
        (sweep_member (envs i) (envs (suc i)) member (verdict c now totals tiers s member) s)

unfoldable pub sweep_member_policies :
    Calendar → (ℕ → Env) → Time → MemoryStore → Result (Unit {0}) × MemoryStore
unfolding sweep_loop usage_totals tiers_by_id
sweep_member_policies c envs now s =
    sweep_loop c envs now (usage_totals (list_member_usage_summaries s) [])
      (tiers_by_id (list_tiers s) []) 0 (list_members s) s
