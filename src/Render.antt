-- ===== src/Render.antt =====
-- internal/render/v2ray.go: the V2Ray configuration of a node, as a JSON value and as its text.
pub mod Clients
use Prim.Native.String.{◌++◌}
use v2ray_platform.Base.{String, List, [], ◌∷◌, map, true}
use v2ray_platform.Base.Json.{
  Json, string, number, boolean, array, object, items, fields, marshal_indent,
}
use v2ray_platform.Base.Result.{Result, ok}
use v2ray_platform.Domain.{Node, NodeCredential}

-- `vmessClient`
pub record VmessClient : Type 0 where
  pub email : String
  pub id : String

-- one round of the loop over the credentials; `Level` is always 0
unfoldable pub client_of : NodeCredential → VmessClient
client_of cred = record { email = cred.uuid; id = cred.uuid }

unfoldable pub client_json : VmessClient → Json
client_json c =
    object (fields (("email", string c.email) ∷ ("id", string c.id) ∷ ("level", number 0) ∷ []))

abbrev obj : List (String × Json) → Json
obj l = object (fields l)

abbrev arr : List Json → Json
arr l = array (items l)

api_inbound : Json
api_inbound = obj (
    ("listen", string "127.0.0.1")
    ∷ ("port", number 10085)
    ∷ ("protocol", string "dokodemo-door")
    ∷ ("settings", obj (("address", string "127.0.0.1") ∷ []))
    ∷ ("tag", string "api")
    ∷ [])

-- `encoding/json` prints the keys of a map in order
vmess_inbound : List VmessClient → String → Json
unfolding client_json
vmess_inbound clients ws_path = obj (
    ("listen", string "127.0.0.1")
    ∷ ("port", number 23333)
    ∷ ("protocol", string "vmess")
    ∷ (
      "settings",
      obj (("clients", arr (map client_json clients)) ∷ ("decryption", string "none") ∷ []),
    )
    ∷ (
      "sniffing",
      obj (
          ("destOverride", arr (string "http" ∷ string "tls" ∷ []))
          ∷ ("enabled", boolean true)
          ∷ []),
    )
    ∷ (
      "streamSettings",
      obj (
          ("network", string "ws")
          ∷ ("security", string "none")
          ∷ ("wsSettings", obj (("path", string ws_path) ∷ []))
          ∷ []),
    )
    ∷ ("tag", string "vmess-inbound")
    ∷ [])

outbounds : Json
outbounds = arr (
    obj (
      ("protocol", string "freedom")
      ∷ ("settings", obj (("userLevel", number 0) ∷ []))
      ∷ ("tag", string "direct")
      ∷ [])
    ∷ obj (("protocol", string "blackhole") ∷ ("settings", obj []) ∷ ("tag", string "blocked") ∷ [])
    ∷ obj (("protocol", string "freedom") ∷ ("settings", obj []) ∷ ("tag", string "api") ∷ [])
    ∷ [])

-- a rule that sends what it matches to the `blocked` outbound
blocked_rule : String → String → Json
blocked_rule key value = obj (
    (key, arr (string value ∷ []))
    ∷ ("outboundTag", string "blocked")
    ∷ ("type", string "field")
    ∷ [])

routing : Json
unfolding blocked_rule
routing = obj (
    ("domainMatcher", string "mph")
    ∷ ("domainStrategy", string "AsIS")
    ∷ (
      "rules",
      arr (
          obj (
            ("inboundTag", arr (string "api" ∷ []))
            ∷ ("outboundTag", string "api")
            ∷ ("type", string "field")
            ∷ [])
          ∷ obj (
              ("outboundTag", string "blocked")
              ∷ ("protocol", arr (string "bittorrent" ∷ []))
              ∷ ("type", string "field")
              ∷ [])
          ∷ blocked_rule "ip" "geoip:private"
          ∷ blocked_rule "domain" "geosite:category-ads"
          ∷ []),
    )
    ∷ [])

dns : Json
dns = obj (
    (
      "hosts",
      obj (
          ("domain:github.io", string "pages.github.com")
          ∷ ("domain:shadowsocks.org", string "electronicsrealm.com")
          ∷ ("domain:v2fly.org", string "www.vicemc.net")
          ∷ ("domain:wikipedia.org", string "www.wikimedia.org")
          ∷ []),
    )
    ∷ (
      "servers",
      arr (
          string "1.1.1.1"
          ∷ obj (
              ("address", string "1.2.4.8")
              ∷ ("domains", arr (string "geosite:cn" ∷ []))
              ∷ ("port", number 53)
              ∷ [])
          ∷ string "8.8.8.8"
          ∷ string "localhost"
          ∷ []),
    )
    ∷ [])

policy : Json
policy = obj (
    (
      "levels",
      obj (
          (
            "0",
            obj (
                ("downlinkOnly", number 0)
                ∷ ("statsUserDownlink", boolean true)
                ∷ ("statsUserUplink", boolean true)
                ∷ ("uplinkOnly", number 0)
                ∷ []),
          )
          ∷ []),
    )
    ∷ (
      "system",
      obj (
          ("statsInboundDownlink", boolean true)
          ∷ ("statsInboundUplink", boolean true)
          ∷ ("statsOutboundDownlink", boolean true)
          ∷ ("statsOutboundUplink", boolean true)
          ∷ ("statsUserDownlink", boolean true)
          ∷ ("statsUserUplink", boolean true)
          ∷ []),
    )
    ∷ [])

-- `v2rayConfig`, in the order of its fields
unfoldable pub node_config : Node → List NodeCredential → Json
unfolding client_of api_inbound vmess_inbound outbounds routing dns policy
node_config node creds = obj (
    ("log", obj (("loglevel", string "info") ∷ []))
    ∷ ("stats", obj [])
    ∷ ("api", obj (("services", arr (string "StatsService" ∷ [])) ∷ ("tag", string "api") ∷ []))
    ∷ ("inbounds", arr (api_inbound ∷ vmess_inbound (map client_of creds) ("/" ++ node.name) ∷ []))
    ∷ ("outbounds", outbounds)
    ∷ ("routing", routing)
    ∷ ("dns", dns)
    ∷ ("policy", policy)
    ∷ [])

-- `json.MarshalIndent` does not fail on these values.
unfoldable pub render_node_config : Node → List NodeCredential → Result String
unfolding node_config marshal_indent
render_node_config node creds = ok (marshal_indent (node_config node creds))
