-- ===== src/CloudFront/Bind.antt =====
-- internal/cloudfront/bind.go: the bindings of the stored nodes.
pub mod Managed
use Prim.Native.String.{◌++◌}
use v2ray_platform.Base.{
  ℕ, suc, String, Bool, true, false, ◌&&◌, Option, none, some, List, [], ◌∷◌, ◌==◌, if◌then◌else◌,
}
use v2ray_platform.Base.Result.{Result, ok, err}
use v2ray_platform.Maps.{Map, lookup, insert}
use v2ray_platform.Domain.{Node, CloudFrontConfig, CloudFrontOrigin, CloudFrontBinding}
use v2ray_platform.Store.State.{MemoryStore, Method, Env}
use v2ray_platform.Store.Nodes.{list_nodes}
use v2ray_platform.Store.CloudFront.{get_cloud_front_config, update_cloud_front_bindings}
use v2ray_platform.CloudFront.{Codec}
use v2ray_platform.CloudFront.Plan.{is_managed_origin_id}

pub record BindResult : Type 0 where
  pub bindings : List CloudFrontBinding
  pub matched_count : ℕ
  pub unmatched_count : ℕ

unfoldable pub managed_origin_id : String → String
managed_origin_id node_id = "v2ray-platform-node-" ++ node_id

unfoldable pub origin_by_route_key :
    List CloudFrontOrigin → Map CloudFrontOrigin → Map CloudFrontOrigin
origin_by_route_key [] m = m
origin_by_route_key (o ∷ rest) m =
    origin_by_route_key rest (if o.route_key == "" then m else insert o.route_key o m)

-- a node keeps a managed origin that its route leads to
unfoldable pub keeps_origin : Option CloudFrontOrigin → Bool
keeps_origin none = false
keeps_origin (some origin) = is_managed_origin_id origin.origin_id

unfoldable pub origin_for : Node → Option CloudFrontOrigin → String
unfolding managed_origin_id keeps_origin
origin_for node none = managed_origin_id node.id
origin_for node (some origin) =
    if keeps_origin (some origin) then origin.origin_id else managed_origin_id node.id

unfoldable pub binding_of : Node → Option CloudFrontOrigin → CloudFrontBinding
unfolding origin_for
binding_of node origin = record {
  node_id = node.id;
  origin_id = origin_for node origin;
  route_key = node.route_key;
  group_name = node.name;
}

-- the loop over the nodes, with its three variables
unfoldable pub bind_loop : Map CloudFrontOrigin → List Node → BindResult
unfolding binding_of keeps_origin
bind_loop origins [] = record { bindings = []; matched_count = 0; unmatched_count = 0 }
bind_loop origins (node ∷ rest) =
    let r = bind_loop origins rest in
    let origin = lookup node.route_key origins in
    if node.route_key == ""
    then record r { unmatched_count = suc r.unmatched_count }
    else if keeps_origin origin
    then record r {
      bindings = binding_of node origin ∷ r.bindings;
      matched_count = suc r.matched_count;
    }
    else record r {
      bindings = binding_of node origin ∷ r.bindings;
      unmatched_count = suc r.unmatched_count;
    }

unfoldable pub stored_origins : Codec → String → Result (List CloudFrontOrigin)
stored_origins k origins_json =
    if origins_json == "" then ok [] else k.unmarshal_origins origins_json

unfoldable pub bindings_stored :
    BindResult → Result (Unit {0}) × MemoryStore → Result BindResult × MemoryStore
bindings_stored r (err x, s) = (err x, s)
bindings_stored r (ok u, s) = (ok r, s)

unfoldable pub bindings_encoded :
    Env → BindResult → Result String → MemoryStore → Result BindResult × MemoryStore
unfolding bindings_stored
bindings_encoded e r (err x) s = (err x, s)
bindings_encoded e r (ok text) s = bindings_stored r (update_cloud_front_bindings e text s)

unfoldable pub bind_origins :
    Codec → Env → Result (List CloudFrontOrigin) → MemoryStore → Result BindResult × MemoryStore
unfolding bindings_encoded bind_loop origin_by_route_key
bind_origins k e (err x) s = (err x, s)
bind_origins k e (ok origins) s =
    let r = bind_loop (origin_by_route_key origins []) (list_nodes s) in
    bindings_encoded e r (k.marshal_bindings r.bindings) s

unfoldable pub bind_config :
    Codec → Env → Result CloudFrontConfig → MemoryStore → Result BindResult × MemoryStore
unfolding bind_origins stored_origins
bind_config k e (err x) s = (err x, s)
bind_config k e (ok cfg) s = bind_origins k e (stored_origins k cfg.origins_json) s

-- `BindNodes`
unfoldable pub bind_nodes : Codec → Env → Method BindResult
unfolding bind_config
bind_nodes k e s = bind_config k e (get_cloud_front_config s) s
