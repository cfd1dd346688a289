-- ===== src/Api/Subscription/Refused.antt =====
-- internal/api/controlplane.go over internal/cloudfront/sync.go and internal/store/memory.go: the
-- CloudFront subscriptions after a sync.
use v2ray_platform.Base.{
  ℕ, String, ◌≡◌, ◌≢◌, refl, inl, inr, some, List, sym, ◌∙◌, ap, ◌==◌, eq_iff, true,
}
use v2ray_platform.Base.Result.{Result, ok, err}
use v2ray_platform.Domain.{Member, CloudFrontConfig}
use v2ray_platform.Store.State.{MemoryStore, Env}
use v2ray_platform.CloudFront.{Client, Codec}
use v2ray_platform.CloudFront.Plan.{SyncPlan}
use v2ray_platform.CloudFront.Sync.{SyncResult, execute_plan}
use v2ray_platform.CloudFront.Sync.Outcome.{execute_plan-IsSettled}
use v2ray_platform.Api.{cloud_front_render_config}
use v2ray_platform.Api.Agents.{Reply, refused, served}
use v2ray_platform.Api.Subscription.{
  Clock, Subscription, subscriber, clash_cf_body, clash_cf_reply,
  handle_public_clash_cf_subscription,
}

module _ (quote : String → String) (ranged : List String → List String) (c : Clock)
    (s : MemoryStore) where
  body_config :
      (member : Member) (config : Result (String × String)) (code : ℕ) (sub : Subscription)
      → clash_cf_body quote ranged c s member config ≡ served code sub
      → (out : String × String) × (config ≡ ok out)
  unfolding clash_cf_body
  body_config member (err x) code sub h = cc h
  body_config member (ok out) code sub h = (out, refl)

  reply_config :
      (r : Reply Member) (code : ℕ) (sub : Subscription)
      → clash_cf_reply quote ranged c s r ≡ served code sub
      → (out : String × String) × (cloud_front_render_config s ≡ ok out)
  unfolding clash_cf_reply
  reply_config (refused refusal text) code sub h = cc h
  reply_config (served status member) code sub h =
      body_config member (cloud_front_render_config s) code sub h

not_synced : (status : String) → status ≡ "failed" → status ≢ "synced"
not_synced status failed synced =
    let e : "failed" == "synced" ≡ true = (eq_iff "failed" "synced").1 (sym failed ∙ synced) in cc e

-- After an `ExecutePlan` that reports a failed sync, over a store with a configuration, no token gets a
-- CloudFront subscription from the store that it leaves.
pub handle_public_clash_cf_subscription-failed :
    {W : Type 0} (client : Client W) (k : Codec) (e : Env) (plan : SyncPlan) (s : MemoryStore)
    (w : W) (cfg : CloudFrontConfig) (result : SyncResult) (quote : String → String)
    (ranged : List String → List String) (c : Clock) (token : String) (code : ℕ)
    (sub : Subscription)
    → s.cloud_front_config ≡ some cfg
    → (execute_plan client k e plan s w).0 ≡ ok result
    → result.sync_status ≡ "failed"
    → handle_public_clash_cf_subscription quote ranged c token (execute_plan client k e plan s w).1
      ≢ served code sub
unfolding handle_public_clash_cf_subscription
handle_public_clash_cf_subscription-failed client k e plan s w cfg result quote ranged c token code
      sub stored returned failed h =
    let end = (execute_plan client k e plan s w).1 in
    let settled = (execute_plan-IsSettled client k e plan s w cfg stored).0 in
    let both : ok settled.result ≡ ok result = sym settled.returned ∙ returned in
    let same : settled.result ≡ result = cc both in
    let status : settled.result.sync_status ≡ "failed" =
      ap (λ (r : SyncResult). r.sync_status) same ∙ failed in
    let (out, rendered) =
      reply_config quote ranged c end (subscriber (c.at 0) token end) code sub h in
    elim settled.outcome [
      | inl (reported, no_config) ↦ no_config out rendered
      | inr (synced, no_drift) ↦ not_synced settled.result.sync_status status synced
    ]
