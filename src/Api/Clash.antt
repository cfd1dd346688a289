-- ===== src/Api/Clash.antt =====
-- internal/api/controlplane.go: `buildMemberClashYAML`, the configuration that a member's client loads.
-- The verb `%q` of `fmt` is a parameter (`quote`), and so are the identifiers that the `range` over the
-- growing set of nodes visits (`ranged`), since Go leaves open whether it visits those added under it.
use Prim.Native.String.{◌++◌}
use v2ray_platform.Base.{
  ℕ, String, Bool, true, false, not, ◌&&◌, Option, none, some, List, [], ◌∷◌, ◌++◌ as ◌+++◌, map,
  ◌==◌, if◌then◌else◌, contains,
}
use v2ray_platform.Base.Decimal.{format_int}
use v2ray_platform.Maps.{Map, lookup, insert}
use v2ray_platform.Domain.{Node, Member, GrantView, GroupGrantView, NodeGroupMembership}
use v2ray_platform.Store.State.{MemoryStore}
use v2ray_platform.Store.Nodes.{list_nodes}
use v2ray_platform.Store.Grants.{list_grants}
use v2ray_platform.Store.Groups.{list_group_grant_views, list_node_group_memberships}

unfoldable pub granted_node_ids : String → List GrantView → List String
granted_node_ids member_id [] = []
granted_node_ids member_id (g ∷ rest) =
    let ids = granted_node_ids member_id rest in
    if g.member_id == member_id then g.node_id ∷ ids else ids

unfoldable pub granted_group_ids : String → List GroupGrantView → List String
granted_group_ids member_id [] = []
granted_group_ids member_id (g ∷ rest) =
    let ids = granted_group_ids member_id rest in
    if g.member_id == member_id then g.group_id ∷ ids else ids

unfoldable pub group_node_ids : List String → List NodeGroupMembership → List String
group_node_ids group_ids [] = []
group_node_ids group_ids (m ∷ rest) =
    let ids = group_node_ids group_ids rest in
    if contains group_ids m.group_id then m.node_id ∷ ids else ids

-- the nodes that the member has access to
unfoldable pub accessible_ids : String → MemoryStore → List String
unfolding granted_node_ids granted_group_ids group_node_ids
accessible_ids member_id s =
    granted_node_ids member_id (list_grants s)
    +++ group_node_ids (granted_group_ids member_id (list_group_grant_views s))
        (list_node_group_memberships s)

unfoldable pub node_by_id : List Node → Map Node → Map Node
node_by_id [] m = m
node_by_id (node ∷ rest) m = node_by_id rest (insert node.id node m)

unfoldable pub relay_of : Option Node → List String
relay_of none = []
relay_of (some node) = if node.proxy_node_id == "" then [] else node.proxy_node_id ∷ []

unfoldable pub relay_ids : Map Node → List String → List String
unfolding relay_of
relay_ids nodes [] = []
relay_ids nodes (id ∷ rest) = relay_of (lookup id nodes) +++ relay_ids nodes rest

unfoldable pub listed_ids : Map Node → (List String → List String) → List String → List String
unfolding relay_ids
listed_ids nodes ranged ids = ids +++ relay_ids nodes (ranged ids)

pub record Proxy : Type 0 where
  pub name : String
  pub server : String
  pub port : ℕ
  pub uuid : String
  pub tls : Bool
  pub ws_path : String
  pub host : String
  pub dialer_proxy : String

unfoldable pub node_name : Node → String
node_name n = if n.region == "" then n.name else n.region ++ (" - " ++ n.name)

unfoldable pub dialer_of : Option Node → String
unfolding node_name
dialer_of none = ""
dialer_of (some relay) = node_name relay

-- the entry host and the custom host of the CloudFront mode, or none for the direct mode
abbrev pub Entry : Type 0
Entry = Option (String × String)

unfoldable pub proxy_of : Map Node → Member → Entry → Node → Proxy
unfolding node_name dialer_of
proxy_of nodes member entry node =
    let dialer =
      if node.proxy_node_id == "" then "" else dialer_of (lookup node.proxy_node_id nodes) in
    elim entry [
      | none ↦ record {
        name = node_name node;
        server = node.public_host;
        port = 80;
        uuid = member.uuid;
        tls = false;
        ws_path = "/" ++ node.name;
        host = "";
        dialer_proxy = dialer;
      }
      | some (entry_host, custom_host) ↦ record {
        name = node_name node;
        server = entry_host;
        port = 443;
        uuid = member.uuid;
        tls = true;
        ws_path = "/" ++ (if node.route_key == "" then node.name else node.route_key);
        host =
            if not (custom_host == "") && not (custom_host == entry_host) then custom_host else "";
        dialer_proxy = dialer;
      }
    ]

unfoldable pub proxies_of : Map Node → List String → Member → Entry → List Node → List Proxy
unfolding proxy_of
proxies_of nodes ids member entry [] = []
proxies_of nodes ids member entry (node ∷ rest) =
    let proxies = proxies_of nodes ids member entry rest in
    if contains ids node.id then proxy_of nodes member entry node ∷ proxies else proxies

unfoldable pub joined : List String → String
joined [] = ""
joined (text ∷ rest) = text ++ joined rest

unfoldable pub proxy_text : (String → String) → Proxy → String
unfolding joined
proxy_text quote p = joined (
    ("  - name: " ++ (quote p.name ++ "\n"))
    ∷ "    type: vmess\n"
    ∷ ("    server: " ++ (quote p.server ++ "\n"))
    ∷ ("    port: " ++ (format_int p.port ++ "\n"))
    ∷ ("    uuid: " ++ (quote p.uuid ++ "\n"))
    ∷ "    alterId: 0\n    cipher: auto\n"
    ∷ (if p.tls then "    tls: true\n" else "")
    ∷ "    network: ws\n    ws-opts:\n"
    ∷ ("      path: " ++ (quote p.ws_path ++ "\n"))
    ∷ (if p.host == "" then "" else "      headers:\n        Host: " ++ (quote p.host ++ "\n"))
    ∷ (if p.dialer_proxy == "" then "" else "    dialer-proxy: " ++ (quote p.dialer_proxy ++ "\n"))
    ∷ "\n"
    ∷ [])

abbrev preamble : List String
preamble =
    "mixed-port: 7890\nallow-lan: false\nmode: rule\nlog-level: info\n"
    ∷ "external-controller: 127.0.0.1:9090\n\n" ∷ "dns:\n  enable: true\n  ipv6: false\n"
    ∷ "  nameserver:\n    - 223.5.5.5\n    - 119.29.29.29\n"
    ∷ "  fallback:\n    - 8.8.8.8\n    - 1.1.1.1\n  fallback-filter:\n    geoip: true\n\n"
    ∷ "proxies:\n" ∷ []

unfoldable pub clash_text : (String → String) → List Proxy → String
unfolding joined proxy_text
clash_text quote proxies = joined (
    preamble
    +++ map (proxy_text quote) proxies
    +++ "proxy-groups:\n  - name: Proxy\n    type: select\n    proxies:\n" ∷ []
    +++ map (λ (p : Proxy). "      - " ++ (quote p.name ++ "\n")) proxies
    +++ "\n" ∷ "rules:\n  - GEOIP,CN,DIRECT\n  - MATCH,Proxy\n" ∷ [])

unfoldable pub member_proxies :
    (List String → List String) → Member → Entry → MemoryStore → List Proxy
unfolding accessible_ids node_by_id listed_ids proxies_of
member_proxies ranged member entry s =
    let nodes = node_by_id (list_nodes s) [] in
    proxies_of nodes (listed_ids nodes ranged (accessible_ids member.id s)) member entry
      (list_nodes s)

unfoldable pub build_member_clash_yaml :
    (String → String) → (List String → List String) → Member → Entry → MemoryStore → String
unfolding member_proxies clash_text
build_member_clash_yaml quote ranged member entry s =
    clash_text quote (member_proxies ranged member entry s)
