-- ===== src/Render/Clients.antt =====
-- What a V2Ray instance reads out of a rendered configuration: its users and its path.
use Prim.Native.String.{◌++◌}
use v2ray_platform.Base.{String, ◌≡◌, refl, Option, none, some, List, [], ◌∷◌, map, ap}
use v2ray_platform.Base.Json.{Json, Items, nil, cons, string, array, items, fields, get, at}
use v2ray_platform.Domain.{Node, NodeCredential}
use v2ray_platform.Render.{client_of, client_json, node_config}

abbrev bind {ℓ κ} : {A : Type ℓ} {B : Type κ} → Option A → (A → Option B) → Option B
bind none f = none
bind (some a) f = f a

abbrev as_text : Option Json → String
as_text (some (string s)) = s
as_text _ = ""

-- the inbound that users connect to is the second one
unfoldable pub user_inbound : Json → Option Json
user_inbound v = bind (get "inbounds" v) (at 1)

-- a user's `email`, by which `rmui` removes the user, and the `id` that the user connects with
unfoldable pub read_users : Items → List (String × String)
read_users nil = []
read_users (cons c rest) = (as_text (get "email" c), as_text (get "id" c)) ∷ read_users rest

abbrev users_in : Option Json → List (String × String)
users_in (some (array cs)) = read_users cs
users_in _ = []

unfoldable pub runtime_users : Json → List (String × String)
unfolding user_inbound read_users
runtime_users v = users_in (bind (bind (user_inbound v) (get "settings")) (get "clients"))

unfoldable pub websocket_path : Json → String
unfolding user_inbound
websocket_path v =
    as_text
      (bind (bind (bind (user_inbound v) (get "streamSettings")) (get "wsSettings")) (get "path"))

read_users-clients :
    (creds : List NodeCredential)
    → read_users (items (map client_json (map client_of creds))) ≡ map (λ c. (c.uuid, c.uuid)) creds
unfolding read_users items client_json client_of get fields
read_users-clients [] = refl
read_users-clients (c ∷ creds) = ap (◌∷◌ (c.uuid, c.uuid)) (read_users-clients creds)

-- The users of a rendered configuration are the given credentials, in their order and no others;
-- each one's email and id are both the credential's UUID. The path is the node's name behind a slash.
pub runtime_users-node_config :
    (node : Node) (creds : List NodeCredential)
    → (runtime_users (node_config node creds) ≡ map (λ c. (c.uuid, c.uuid)) creds)
      × (websocket_path (node_config node creds) ≡ "/" ++ node.name)
unfolding runtime_users websocket_path node_config items get at fields
runtime_users-node_config node creds = (read_users-clients creds, refl)
