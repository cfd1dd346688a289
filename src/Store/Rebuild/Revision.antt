-- ===== src/Store/Rebuild/Revision.antt =====
-- What `rebuildNodeConfigLocked` writes, and what it leaves alone.
use v2ray_platform.Base.{
  ℕ, suc, String, ◌≡◌, refl, Option, none, some, List, [], ◌∷◌, arith, ◌==◌, if◌then◌else◌,
}
use v2ray_platform.Base.Int64.{add64}
use v2ray_platform.Base.Json.{marshal_indent}
use v2ray_platform.Base.Result.{Result, ok, err}
use v2ray_platform.Maps.{lookup, lookup-insert}
use v2ray_platform.Domain.{Time, Node, ConfigRevision}
use v2ray_platform.Render.{render_node_config, node_config}
use v2ray_platform.Store.State.{MemoryStore}
use v2ray_platform.Store.Rebuild.{
  rebuild_node_config_locked, rebuild_all, after_rebuild, config_credentials, next_revision,
}

-- the maps that decide who has access are the same
pub record SameAccess (s t : MemoryStore) : Type 0 where
  pub members : t.members ≡ s.members
  pub grants : t.grants ≡ s.grants
  pub credentials : t.credentials ≡ s.credentials
  pub group_grants : t.group_grants ≡ s.group_grants
  pub node_group_nodes : t.node_group_nodes ≡ s.node_group_nodes
  pub admin_sessions : t.admin_sessions ≡ s.admin_sessions

pub rebuild-SameAccess :
    (node_id : String) (now : Time) (s : MemoryStore)
    → SameAccess s (rebuild_node_config_locked node_id now s).1
unfolding rebuild_node_config_locked render_node_config
rebuild-SameAccess node_id now s = ground arith

pub SameAccess-refl : (s : MemoryStore) → SameAccess s s
SameAccess-refl s = ground arith

pub SameAccess-trans : {s t u : MemoryStore} → SameAccess s t → SameAccess t u → SameAccess s u
SameAccess-trans h k = ground arith

-- The rest of a loop runs only after a rebuild that succeeded.
pub after_rebuild-SameAccess :
    (s : MemoryStore) (rest : MemoryStore → Result (Unit {0}) × MemoryStore)
    → ((t : MemoryStore) → SameAccess t (rest t).1)
    → (r : Result ConfigRevision × MemoryStore) → SameAccess s r.1
    → SameAccess s (after_rebuild rest r).1
unfolding after_rebuild
after_rebuild-SameAccess s rest keeps (err e, t) h = h
after_rebuild-SameAccess s rest keeps (ok r, t) h = SameAccess-trans h (keeps t)

pub rebuild_all-SameAccess :
    (clock : ℕ → Time) (i : ℕ) (nodes : List String) (s : MemoryStore)
    → SameAccess s (rebuild_all clock i nodes s).1
unfolding rebuild_all
rebuild_all-SameAccess clock i [] s = SameAccess-refl s
rebuild_all-SameAccess clock i (n ∷ rest) s =
    after_rebuild-SameAccess s (rebuild_all clock (suc i) rest)
      (λ t. rebuild_all-SameAccess clock (suc i) rest t) (rebuild_node_config_locked n (clock i) s)
      (rebuild-SameAccess n (clock i) s)

-- the version that a node's stored revision has, or 0
unfoldable pub version_of : Option ConfigRevision → ℕ
version_of none = 0
version_of (some r) = r.config_version

-- Of a node that is stored, a rebuild returns the revision that it stores: one version up from the
-- node's last, with the text of the configuration of the entitled credentials. The revisions of
-- other nodes, and who has access, stay as they are.
pub rebuild_node_config_locked-revision :
    (node_id : String) (now : Time) (s : MemoryStore) (node : Node)
    → lookup node_id s.nodes ≡ some node
    → (r : ConfigRevision) × ((rebuild_node_config_locked node_id now s).0 ≡ ok r)
      × (r.config_version ≡ add64 (version_of (lookup node_id s.revisions)) 1)
      × (r.config ≡ marshal_indent (node_config node (config_credentials s node_id now)))
      × ((j : String)
          → lookup j (rebuild_node_config_locked node_id now s).1.revisions
            ≡ (if node_id == j then some r else lookup j s.revisions))
      × SameAccess s (rebuild_node_config_locked node_id now s).1
unfolding rebuild_node_config_locked render_node_config version_of
rebuild_node_config_locked-revision node_id now s node found = (
  next_revision s node_id now
      (marshal_indent (node_config node (config_credentials s node_id now))),
  rw found,
  ground arith,
  refl,
  λ j. rw found (lookup-insert node_id j _ s.revisions),
  rebuild-SameAccess node_id now s,
)
