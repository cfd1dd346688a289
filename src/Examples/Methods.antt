-- ===== src/Examples/Methods.antt =====
-- The theorems on nodes, tokens, queues, usage and pages, applied to the small store.
use v2ray_platform.Base.{
  String, ◌≡◌, ◌≢◌, refl, true, false, some, List, [], ◌∷◌, ◌++◌, map, take, drop, ◌+◌, ◌*◌, arith,
  ◌==◌, eq_iff,
}
use v2ray_platform.Base.Decimal.{format_int}
use v2ray_platform.Base.Int64.{lt64}
use v2ray_platform.Base.Result.{Result, ok, err}
use v2ray_platform.Base.Text.{trim_space, to_lower}
use v2ray_platform.Maps.{lookup, find_entry, insert}
use v2ray_platform.Render.{render_node_config}
use v2ray_platform.Store.Rebuild.{rebuild_node_config_locked, expired_before}
use v2ray_platform.Domain.{Node}
use v2ray_platform.Store.State.{HeartbeatInput, SyncResultInput, RegisterNodeOutput}
use v2ray_platform.Store.Bootstrap.{register_node}
use v2ray_platform.Store.Bootstrap.SingleUse.{register_node-single_use}
use v2ray_platform.Store.Nodes.{heartbeat, record_sync_result, find_node_by_token_locked}
use v2ray_platform.Base.{◌⊎◌, any_of}
use v2ray_platform.Maps.{values}
use v2ray_platform.Domain.{NodeSyncEvent}
use v2ray_platform.Store.Nodes.Versions.{
  IsBeaten, IsRefused, IsRecorded, has_token, heartbeat-newest, node_token-unauthorized,
  record_sync_result-outcome,
}
use v2ray_platform.Store.Pending.{get_and_clear_pending_removals, add_pending_user_removals}
use v2ray_platform.Store.Pending.Delivery.{
  removals_for, removed_user, select, get_and_clear_pending_removals-delivery,
  add_pending_user_removals-queue,
}
use v2ray_platform.Store.Usage.{get_member_usage_since, member_summaries}
use v2ray_platform.Store.Usage.Totals.{total_of, member_summaries-usage}
use v2ray_platform.Store.Paging.{slice, panic, page_of}
use v2ray_platform.Store.Paging.Pages.{page_of-slice, page_of-panic}
use v2ray_platform.Base.Text.{trim_prefix}
use v2ray_platform.Api.Agents.{Release, HeartbeatRequest, bearer_token, handle_agent_heartbeat}
use v2ray_platform.Api.Agents.Delivery.{IsDelivered, handle_agent_heartbeat-IsDelivered}
use v2ray_platform.Examples.{env, tokyo, store, registration, removal}

abbrev beat : HeartbeatInput
beat = record {
  node_token = "agent";
  applied_config_version = 4;
  public_host = "";
  status = "online";
}

abbrev failure : SyncResultInput
failure = record { node_token = "agent"; config_version = 4; success = false; message = "no" }

heartbeat-newest_example :
    (n' : Node) × ((heartbeat (env "a") beat store).0 ≡ ok n')
    × (lookup "n1" (heartbeat (env "a") beat store).1.nodes ≡ some n')
    × IsBeaten ((env "a").clock 0) beat tokyo n'
    × ((j : String)
        → j ≢ "n1"
        → lookup j (heartbeat (env "a") beat store).1.nodes ≡ lookup j store.nodes)
unfolding find_node_by_token_locked find_entry trim_space
heartbeat-newest_example = heartbeat-newest (env "a") beat store "n1" tokyo refl

node_token-unauthorized_example :
    ((any_of (has_token "sha:stray") (values store.nodes) ≡ false)
      × IsRefused (env "a") "stray" beat failure [] store)
    ⊎ ((any_of (has_token "sha:stray") (values store.nodes) ≡ true)
        × ((n : Node) × ((heartbeat (env "a") (record beat { node_token = "stray" }) store).0
              ≡ ok n)
            × (n.node_token_hash ≡ "sha:stray")))
unfolding trim_space
node_token-unauthorized_example = node_token-unauthorized (env "a") beat failure [] "stray" store

record_sync_result-outcome_example :
    (n' : Node) × (event : NodeSyncEvent) × ((record_sync_result (env "a") failure store).0 ≡ ok tt)
    × (lookup "n1" (record_sync_result (env "a") failure store).1.nodes ≡ some n')
    × ((record_sync_result (env "a") failure store).1.sync_events ≡ store.sync_events ++ event ∷ [])
    × IsRecorded ((env "a").clock 0) failure tokyo n' event
    × ((j : String)
        → j ≢ "n1"
        → lookup j (record_sync_result (env "a") failure store).1.nodes ≡ lookup j store.nodes)
unfolding find_node_by_token_locked find_entry trim_space
record_sync_result-outcome_example =
    record_sync_result-outcome (env "a") failure store "n1" tokyo refl

-- the output of a registration that succeeds
output_of : Result RegisterNodeOutput → RegisterNodeOutput
output_of (ok out) = out
output_of (err x) = record { node_id = ""; node_token = ""; config_version = 0; config = "" }

register_node-single_use_example :
    (register_node (env "b") registration (register_node (env "a") registration store).1).0
    ≢ ok (output_of (register_node (env "a") registration store).0)
unfolding output_of register_node find_entry lookup insert trim_space format_int
    rebuild_node_config_locked render_node_config lt64 expired_before to_lower
register_node-single_use_example =
    register_node-single_use (env "a") (env "b") registration registration store
      (register_node (env "a") registration store).1
      (output_of (register_node (env "a") registration store).0)
      (output_of (register_node (env "a") registration store).0) refl refl refl

get_and_clear_pending_removals-delivery_example :
    ((get_and_clear_pending_removals "n1" store).0 ≡ ok (removals_for "n1" store))
    × (removals_for "n1" (get_and_clear_pending_removals "n1" store).1 ≡ [])
    × (removals_for "n2" (get_and_clear_pending_removals "n1" store).1 ≡ removals_for "n2" store)
get_and_clear_pending_removals-delivery_example =
    get_and_clear_pending_removals-delivery "n1" "n2" store (ground (arith, eq_iff "n2" "n1"))

add_pending_user_removals-queue_example :
    map removed_user
      (removals_for "n1" (add_pending_user_removals (env "a") (removal "n1" "u-z" ∷ []) store).1)
    ≡ map removed_user (removals_for "n1" store)
      ++ map removed_user (select (λ r. r.node_id == "n1") (removal "n1" "u-z" ∷ []))
add_pending_user_removals-queue_example =
    add_pending_user_removals-queue "n1" (env "a") (removal "n1" "u-z" ∷ []) store

member_summaries-usage_example :
    total_of (lookup "m1" (member_summaries store store.usage_snapshots []))
    ≡ get_member_usage_since "m1" 0 store
member_summaries-usage_example = member_summaries-usage "m1" store (λ h. cc)

abbrev five : List String
five = "a" ∷ "b" ∷ "c" ∷ "d" ∷ "e" ∷ []

page_of-slice_example :
    (page_of five 2 2 ≡ slice (take 2 (drop (1 * 2) five)))
    × (take (1 * 2) five ++ take 2 (drop (1 * 2) five) ≡ take (1 * 2 + 2) five)
page_of-slice_example =
    page_of-slice five 1 2 (omega arith) (omega arith) (omega arith) (omega arith)

-- page 184467440737095518 of 50 elements each
page_of-panic_example : page_of five 184467440737095518 50 ≡ panic
page_of-panic_example =
    page_of-panic five 184467440737095517 50 (omega arith) (omega arith) (omega arith) (omega arith)
      (omega arith)

abbrev beat_request : HeartbeatRequest
beat_request = record { applied_config_version = 4; public_host = ""; status = "online"; arch = "" }

abbrev release : Release
release = record {
  agent_download_url = "https://example.org/agent-amd64";
  cached_md5 = λ arch. "digest";
  replace_all = λ text old new. text;
}

agent_found :
    find_node_by_token_locked (env "a") (bearer_token "Bearer agent") store ≡ ok ("n1", tokyo)
unfolding find_node_by_token_locked bearer_token trim_space trim_prefix find_entry
agent_found = refl

handle_agent_heartbeat-IsDelivered_example :
    IsDelivered "n1" "n2" store
      (handle_agent_heartbeat (env "a") release "Bearer agent" (ok beat_request) store)
handle_agent_heartbeat-IsDelivered_example =
    handle_agent_heartbeat-IsDelivered (env "a") release "Bearer agent" beat_request store "n1"
      tokyo "n2" agent_found (ground (arith, eq_iff "n2" "n1"))
