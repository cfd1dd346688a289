-- ===== src/Api/Agents/Delivery.antt =====
-- internal/api/controlplane.go over internal/store/memory.go: what a heartbeat of an agent delivers.
use v2ray_platform.Base.{String, ◌≡◌, ◌≢◌, refl, [], arith, ◌==◌, eq_iff}
use v2ray_platform.Base.Result.{ok}
use v2ray_platform.Domain.{Node}
use v2ray_platform.Store.State.{MemoryStore, Env, HeartbeatInput}
use v2ray_platform.Maps.{insert}
use v2ray_platform.Store.Nodes.{heartbeat, heartbeat_found, beaten_node, find_node_by_token_locked}
use v2ray_platform.Store.Pending.{get_and_clear_pending_removals, get_and_clear_pending_additions}
use v2ray_platform.Store.Pending.Delivery.{
  removals_for, additions_for, split_removals-select, split_additions-select, select-none,
  select-rest,
}
use v2ray_platform.Api.Agents.{
  Reply, served, Release, HeartbeatRequest, HeartbeatResponse, bearer_token, heartbeat_stored,
  handle_agent_heartbeat, removals_cleared, additions_cleared,
}

-- The reply has the users that waited for the node; none of them waits any more, and those of another
-- node still wait.
pub record IsDelivered (node_id other : String) (s : MemoryStore)
    (r : Reply HeartbeatResponse × MemoryStore) : Type 0 where
  pub response : HeartbeatResponse
  pub replied : r.0 ≡ served 200 response
  pub removals : response.pending_removals ≡ removals_for node_id s
  pub additions : response.pending_additions ≡ additions_for node_id s
  pub no_removals : removals_for node_id r.1 ≡ []
  pub no_additions : additions_for node_id r.1 ≡ []
  pub other_removals : removals_for other r.1 ≡ removals_for other s
  pub other_additions : additions_for other r.1 ≡ additions_for other s

stored-IsDelivered :
    (release : Release) (request : HeartbeatRequest) (node : Node) (other : String)
    (s : MemoryStore)
    → other ≢ node.id
    → IsDelivered node.id other s (heartbeat_stored release request (ok node, s))
unfolding heartbeat_stored removals_cleared additions_cleared get_and_clear_pending_removals
    get_and_clear_pending_additions
stored-IsDelivered release request node other s h =
    rw
      (
        split_removals-select node.id s.pending_removals [] [],
        split_additions-select node.id s.pending_additions [] [],
      )
      (record {
        response = _;
        replied = refl;
        removals = refl;
        additions = refl;
        no_removals = select-none (λ r. r.node_id == node.id) s.pending_removals;
        no_additions = select-none (λ r. r.node_id == node.id) s.pending_additions;
        other_removals =
            select-rest (λ r. r.node_id == other) (λ r. r.node_id == node.id) s.pending_removals
              (λ r e. ground (arith, eq_iff r.node_id other, eq_iff r.node_id node.id));
        other_additions =
            select-rest (λ r. r.node_id == other) (λ r. r.node_id == node.id) s.pending_additions
              (λ r e. ground (arith, eq_iff r.node_id other, eq_iff r.node_id node.id));
      })

-- A heartbeat with the token of a node is answered with exactly the users that waited to be removed
-- from the node and to be added to it, in the order of the queues; none of them waits any more, so
-- that each is delivered once, and those of every other node still wait.
pub handle_agent_heartbeat-IsDelivered :
    (e : Env) (release : Release) (authorization : String) (request : HeartbeatRequest)
    (s : MemoryStore) (k : String) (n : Node) (other : String)
    → find_node_by_token_locked e (bearer_token authorization) s ≡ ok (k, n)
    → other ≢ n.id
    → IsDelivered n.id other s (handle_agent_heartbeat e release authorization (ok request) s)
unfolding handle_agent_heartbeat heartbeat heartbeat_found beaten_node
handle_agent_heartbeat-IsDelivered e release authorization request s k n other found h =
    let input : HeartbeatInput = record {
      node_token = bearer_token authorization;
      applied_config_version = request.applied_config_version;
      public_host = request.public_host;
      status = request.status;
    } in
    let node = beaten_node (e.clock 0) input n in
    let delivered =
      stored-IsDelivered release request node other (record s { nodes = insert k node s.nodes })
        h in
    rw (found) (record {
      response = delivered.response;
      replied = delivered.replied;
      removals = delivered.removals;
      additions = delivered.additions;
      no_removals = delivered.no_removals;
      no_additions = delivered.no_additions;
      other_removals = delivered.other_removals;
      other_additions = delivered.other_additions;
    })
