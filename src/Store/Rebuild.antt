-- ===== src/Store/Rebuild.antt =====
-- `rebuildNodeConfigLocked` of internal/store/memory.go, and its loops over the nodes to rebuild.
pub mod Entitlement
pub mod Revision
use Prim.Native.String.{◌++◌ as str_append}
use v2ray_platform.Base.{
  ℕ, suc, String, Bool, true, false, not, ◌&&◌, ◌||◌, Option, none, some, List, [], ◌∷◌, ◌++◌, ◌==◌,
  ltb, if◌then◌else◌, contains,
}
use v2ray_platform.Base.Int64.{add64}
use v2ray_platform.Base.Result.{Result, ok, err, not_found}
use v2ray_platform.Base.Sort.{sort_slice}
use v2ray_platform.Maps.{Map, keys, lookup, insert}
use v2ray_platform.Domain.{Time, Node, Member, NodeCredential, ConfigRevision, member_status_active}
use v2ray_platform.Render.{render_node_config}
use v2ray_platform.Store.State.{MemoryStore, Method}

-- `credentialEmail` of helpers.go
abbrev pub credential_email : Member → String → String
credential_email member node_id = member.email

-- `ExpiresAt != nil && ExpiresAt.Before(now)`
unfoldable pub expired_before : Option Time → Time → Bool
expired_before none now = false
expired_before (some t) now = ltb t now

-- active, and not expired before `now`
unfoldable pub is_live : Time → Member → Bool
unfolding expired_before
is_live now m = m.status == member_status_active && not (expired_before m.expires_at now)

-- the test on a stored credential's member; a member that is not there passes
unfoldable pub passes : Time → Option Member → Bool
unfolding is_live
passes now none = true
passes now (some m) = is_live now m

-- the variables `creds` and `seenMembers` of the two loops
pub record Collected : Type 0 where
  pub creds : List NodeCredential
  pub seen : List String

unfoldable pub add : NodeCredential → Collected → Collected
add cred acc = record { creds = acc.creds ++ cred ∷ []; seen = acc.seen ++ cred.member_id ∷ [] }

-- ranging over a nil map visits nothing
abbrev pub keys_of : Option (Map Time) → List String
keys_of none = []
keys_of (some m) = keys m

module _ (s : MemoryStore) (node_id : String) (now : Time) where
  -- one round of the loop over `s.credentials`
  unfoldable pub direct_step : NodeCredential → Collected → Collected
  unfolding passes add
  direct_step cred acc =
      if cred.node_id == node_id && passes now (lookup cred.member_id s.members)
      then add cred acc
      else acc

  unfoldable pub direct_loop : Map NodeCredential → Collected → Collected
  unfolding direct_step
  direct_loop [] acc = acc
  direct_loop ((_, cred) ∷ rest) acc = direct_loop rest (direct_step cred acc)

  unfoldable pub derived : String → String → Member → NodeCredential
  derived group_id member_id member = record {
    id = str_append "derived-" (str_append group_id (str_append "-" member_id));
    node_id = node_id;
    member_id = member_id;
    access_grant_id = str_append "group:" group_id;
    uuid = member.uuid;
    email = credential_email member node_id;
    created_at = now;
  }

  unfoldable pub group_member : String → String → Option Member → Collected → Collected
  unfolding derived is_live add
  group_member group_id member_id none acc = acc
  group_member group_id member_id (some member) acc =
      if is_live now member then add (derived group_id member_id member) acc else acc

  -- one round of the loop over the members of a group
  unfoldable pub group_step : String → String → Collected → Collected
  unfolding group_member
  group_step group_id member_id acc =
      if contains acc.seen member_id
      then acc
      else group_member group_id member_id (lookup member_id s.members) acc

  unfoldable pub members_loop : String → List String → Collected → Collected
  unfolding group_step
  members_loop group_id [] acc = acc
  members_loop group_id (member_id ∷ rest) acc =
      members_loop group_id rest (group_step group_id member_id acc)

  unfoldable pub groups_loop : List String → Collected → Collected
  unfolding members_loop
  groups_loop [] acc = acc
  groups_loop (group_id ∷ rest) acc =
      groups_loop rest (members_loop group_id (keys_of (lookup group_id s.group_grants)) acc)

  -- both loops, from empty variables
  unfoldable pub collect : Collected
  unfolding direct_loop groups_loop
  collect =
      groups_loop (keys_of (lookup node_id s.node_group_nodes))
        (direct_loop s.credentials (record { creds = []; seen = [] }))

  -- the credentials that the configuration is rendered from
  unfoldable pub config_credentials : List NodeCredential
  unfolding collect
  config_credentials = sort_slice (λ a b. ltb a.created_at b.created_at) collect.creds

  -- the stored revision of the node, or a new one with version 0
  unfoldable pub current_revision : Option ConfigRevision → ConfigRevision
  current_revision none = record {
    node_id = node_id;
    config_version = 0;
    config = "";
    config_hash = "";
    updated_at = 0;
  }
  current_revision (some r) = r

  unfoldable pub next_revision : String → ConfigRevision
  unfolding current_revision
  next_revision text =
      let r = current_revision (lookup node_id s.revisions) in
      record r { config_version = add64 r.config_version 1; config = text; updated_at = now }

  unfoldable pub store_revision : Node → Result String → Result ConfigRevision × MemoryStore
  unfolding next_revision
  store_revision node (err e) = (err e, s)
  store_revision node (ok text) = (
    ok (next_revision text),
    record s {
      revisions = insert node_id (next_revision text) s.revisions;
      nodes = insert node_id (record node { updated_at = now }) s.nodes;
    },
  )

  unfoldable pub rebuild_found : Option Node → Result ConfigRevision × MemoryStore
  unfolding store_revision
  rebuild_found none = (err not_found, s)
  rebuild_found (some node) = store_revision node (render_node_config node config_credentials)

unfoldable pub rebuild_node_config_locked : String → Time → Method ConfigRevision
unfolding rebuild_found
rebuild_node_config_locked node_id now s = rebuild_found s node_id now (lookup node_id s.nodes)

-- goes on with the other nodes after a rebuild that succeeded
unfoldable pub after_rebuild :
    (MemoryStore → Result (Unit {0}) × MemoryStore)
    → Result ConfigRevision × MemoryStore
    → Result (Unit {0}) × MemoryStore
after_rebuild rest (err e, s) = (err e, s)
after_rebuild rest (ok r, s) = rest s

-- the loop that rebuilds node after node and returns at the first error; the nodes are rebuilt at
-- the readings `i`, `i + 1`, … of the clock
unfoldable pub rebuild_all : (ℕ → Time) → ℕ → List String → Method (Unit {0})
unfolding rebuild_node_config_locked after_rebuild
rebuild_all clock i [] s = (ok tt, s)
rebuild_all clock i (node_id ∷ rest) s =
    after_rebuild (rebuild_all clock (suc i) rest) (rebuild_node_config_locked node_id (clock i) s)
