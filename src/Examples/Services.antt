-- ===== src/Examples/Services.antt =====
-- The theorems on the services of the control plane, and on its configuration, applied to small inputs.
use v2ray_platform.Base.{ℕ, ◌+◌, String, ◌≡◌, ◌≢◌, refl, false, some, [], ◌∷◌}
use v2ray_platform.Base.Text.{trim_space, trim_prefix}
use v2ray_platform.Base.Result.{Result, message, error_text, ok, err}
use v2ray_platform.Store.CloudFront.{get_cloud_front_config}
use v2ray_platform.Maps.{Map}
use v2ray_platform.Domain.{CloudFrontOrigin}
use v2ray_platform.Store.State.{MemoryStore}
use v2ray_platform.Monitor.Sweep.{Calendar}
use v2ray_platform.CloudFront.{RouteAction, Client, Codec}
use v2ray_platform.CloudFront.Plan.{SyncPlan, is_managed_origin_id}
use v2ray_platform.CloudFront.Sync.{SyncResult, execute_plan, update_status, conflict_text}
use v2ray_platform.CloudFront.Sync.Outcome.{IsSettled, execute_plan-IsSettled}
use v2ray_platform.Aws.{DistributionConfig}
use v2ray_platform.Aws.Apply.{edit_routes, actionable}
use v2ray_platform.Aws.Edit.{behavior_for, route_pattern}
use v2ray_platform.Aws.Managed.{empty_config}
use v2ray_platform.Aws.Paths.{origin_at, asked_by}
use v2ray_platform.Aws.Routes.{edit_routes-asked}
use v2ray_platform.Api.Agents.{served}
use v2ray_platform.Api.Subscription.{Clock, Subscription, handle_public_clash_cf_subscription}
use v2ray_platform.Api.Subscription.Refused.{handle_public_clash_cf_subscription-failed}
use v2ray_platform.Examples.{env, store, alice, bob, config}

abbrev calendar : Calendar
calendar = record {
  month_start = λ now. 0;
  expired_payload = λ at. "expired";
  suspended_payload = λ quota type used. "suspended";
}

-- one member is past the expiry, the other has used up the quota
abbrev overdue : MemoryStore
overdue = record store {
  members =
      ("m1", record alice { expires_at = some 500 })
      ∷ ("m2", record bob { quota_bytes_limit = 10 })
      ∷ [];
}

-- a client that refuses every change and counts the calls
abbrev client : Client ℕ
client = record {
  list_distributions = λ n. (ok [], n + 1);
  get_distribution = λ id n. (err (message "down"), n + 1);
  apply_distribution_routes = λ id actions rewrites n. (err (message "down"), n + 1);
}

abbrev codec : Codec
codec = record {
  marshal_origins = λ origins. "origins";
  unmarshal_origins = λ text. ok [];
  marshal_bindings = λ bindings. ok "bindings";
  marshal_actions = λ actions. "actions";
}

abbrev addition : RouteAction
addition = record {
  action = "add_route";
  origin_id = "v2ray-platform-node-n1";
  route_key = "r1";
  host = "tokyo.example.org";
  group_name = "tokyo";
  reason = "";
}

abbrev drifted : SyncPlan
drifted = record { actions = addition ∷ []; rewrite_routes = []; drift_status = "drifted" }

execute_plan-IsSettled_example :
    IsSettled (execute_plan client codec (env "a") drifted store 0)
    × (drifted.drift_status ≡ "conflict"
        → ((execute_plan client codec (env "a") drifted store 0).2 ≡ 0)
          × ((execute_plan client codec (env "a") drifted store 0).1
              ≡ update_status codec
                  (env "a")
                  config
                  "failed"
                  "conflict"
                  conflict_text
                  drifted.actions
                  store))
execute_plan-IsSettled_example =
    execute_plan-IsSettled client codec (env "a") drifted store 0 config refl

-- an origin of someone else under the route key of the node
abbrev origins : Map CloudFrontOrigin
origins =
    (
      "r1",
      record { origin_id = "custom"; host = "h"; port = 443; route_key = "r1"; group_name = "" },
    )
    ∷ []

-- the configuration with one behavior of someone else
abbrev occupied : DistributionConfig
occupied = record empty_config {
  cache_behaviors = record {
    quantity = 1;
    items =
        record {
          path_pattern = "/other";
          target_origin_id = "custom";
          settings = empty_config.default_cache_behavior.settings;
        }
        ∷ [];
  };
}

abbrev config_of : Result DistributionConfig → DistributionConfig
config_of (err e) = occupied
config_of (ok cfg) = cfg

abbrev edited : DistributionConfig
edited = config_of (edit_routes (addition ∷ []) occupied)

edited_ok : edit_routes (addition ∷ []) occupied ≡ ok edited
unfolding edit_routes trim_space is_managed_origin_id behavior_for route_pattern trim_prefix
edited_ok = refl

edit_routes-asked_example :
    (origin_at "/r1" edited.cache_behaviors.items
      ≡ asked_by
          (actionable (addition ∷ []))
          "/r1"
          (origin_at "/r1" occupied.cache_behaviors.items))
    × ((o : String)
        → origin_at "/r1" occupied.cache_behaviors.items ≡ some o
        → is_managed_origin_id o ≡ false
        → origin_at "/r1" edited.cache_behaviors.items ≡ some o)
edit_routes-asked_example = edit_routes-asked (addition ∷ []) occupied edited "/r1" edited_ok

abbrev clock : Clock
clock = record { at = λ i. 700; month_start = λ now. 0; unix = λ t. t }

abbrev failed_result : SyncResult
failed_result = record {
  actions_applied = 0;
  drift_status = "drifted";
  sync_status = "failed";
  error = "down";
}

failed_run : (execute_plan client codec (env "a") drifted store 0).0 ≡ ok failed_result
unfolding execute_plan get_cloud_front_config error_text
failed_run = refl

abbrev any_subscription : Subscription
any_subscription = record {
  user_info = "";
  content_type = "";
  content_disposition = "";
  update_interval = "1";
  body = "";
}

handle_public_clash_cf_subscription-failed_example :
    handle_public_clash_cf_subscription
      (λ text. text)
      (λ ids. ids)
      clock
      "m1-sub"
      (execute_plan client codec (env "a") drifted store 0).1
    ≢ served 200 any_subscription
handle_public_clash_cf_subscription-failed_example =
    handle_public_clash_cf_subscription-failed client codec (env "a") drifted store 0 config
      failed_result (λ text. text) (λ ids. ids) clock "m1-sub" 200 any_subscription refl failed_run
      refl
