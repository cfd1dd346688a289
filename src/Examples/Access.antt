-- ===== src/Examples/Access.antt =====
-- The theorems on access, applied to the small store.
use v2ray_platform.Base.{
  String, ◌≡◌, refl, ◌||◌, some, List, [], ◌∷◌, All, Distinct, contains, map, ◌==◌, Bool-cases, inl,
  inr, any_of, if◌then◌else◌,
}
use v2ray_platform.Base.Decimal.{format_int}
use v2ray_platform.Base.Int64.{add64, lt64}
use v2ray_platform.Base.Json.{marshal_indent}
use v2ray_platform.Base.Sort.{sort_slice, insert_sorted}
use v2ray_platform.Base.Text.{to_lower, trim_space}
use v2ray_platform.Base.Result.{ok, err, not_found}
use v2ray_platform.Maps.{lookup, find_entry, insert}
use v2ray_platform.Domain.{ConfigRevision}
use v2ray_platform.Render.{node_config, render_node_config}
use v2ray_platform.Render.Clients.{runtime_users, websocket_path, runtime_users-node_config}
use v2ray_platform.Store.State.{
  MemoryStore, Env, new_memory_store, CreateMemberInput, CreateGrantInput,
}
use v2ray_platform.Store.Rebuild.{config_credentials, rebuild_node_config_locked, rebuild_all}
use v2ray_platform.Store.Rebuild.Entitlement.{
  direct_members, entitled_directly, entitled_by_group, config_credentials-entitled,
}
use v2ray_platform.Store.Rebuild.Revision.{
  version_of, SameAccess, rebuild_node_config_locked-revision,
}
use v2ray_platform.Store.Groups.{create_group_grant, set_node_groups_for_node, create_node_group}
use v2ray_platform.Store.Bootstrap.{register_node, create_bootstrap_token}
use v2ray_platform.Store.Members.{create_member, update_member, patched_member}
use v2ray_platform.Store.Members.Staleness.{
  IsPatched, IsSynced, update_member-group_only, update_member-node_gone,
}
use v2ray_platform.Store.Access.{HasConsistentAccess}
use v2ray_platform.Store.Access.Config.{IsLiveUser, config_credentials-IsLiveUser}
use v2ray_platform.Store.Calls.{Call, execute, run}
use v2ray_platform.Store.Calls.Consistency.{run-config_credentials, execute-HasConsistentAccess}
use v2ray_platform.Domain.{Member}
use v2ray_platform.Base.{none}
use v2ray_platform.Examples.{
  env, tokyo, alice, bob, grant, credential, store, registration, suspension,
}

carol : CreateMemberInput
carol = record { name = "carol"; email = "carol@example.org"; note = "" }

abbrev tokyo_for_bob : CreateGrantInput
tokyo_for_bob = record { node_id = "n1"; member_id = "m2" }

store-single : (n : String) → Distinct (direct_members n store.credentials)
unfolding direct_members contains
store-single n = elim (Bool-cases ("n1" == n)) [ inl e ↦ rw (e) (refl, tt) | inr e ↦ rw (e) tt ]

store-HasConsistentAccess : HasConsistentAccess store
unfolding lookup
store-HasConsistentAccess = record {
  sound = (
    record {
      grant = grant;
      granted = refl;
      grant_node = refl;
      grant_member = refl;
      member = alice;
      present = refl;
      same_uuid = refl;
    },
    tt,
  );
  single = store-single;
}

-- a member, a node that registers, and a group that grants the member the node
abbrev history : List (Env × Call)
history =
    (env "a", Call.create_member carol)
    ∷ (env "b", Call.create_bootstrap_token (record { description = ""; ttl_hours = 0 }))
    ∷ (env "c", Call.register_node (record registration { bootstrap_token = "bt0" }))
    ∷ (env "d", Call.create_node_group "group" "")
    ∷ (env "e", Call.set_node_groups_for_node "node_c0" ("group_d0" ∷ []))
    ∷ (env "f", Call.create_group_grant "group_d0" "member_a0")
    ∷ []

run-config_credentials_example :
    let s = run history new_memory_store in
    Distinct (map (λ c. c.member_id) (config_credentials s "node_c0" 2000))
    × ((member_id : String)
        → contains (map (λ c. c.member_id) (config_credentials s "node_c0" 2000)) member_id ≡ (
            entitled_directly s "node_c0" 2000 member_id
            || entitled_by_group s "node_c0" 2000 member_id))
    × All (IsLiveUser s "node_c0" 2000) (config_credentials s "node_c0" 2000)
unfolding lookup
run-config_credentials_example =
    run-config_credentials history "node_c0" 2000 (refl, (tt, (tt, (tt, (tt, (tt, tt))))))

-- after these calls the node has one credential, of the member of the group
history_test :
    map (λ c. c.member_id) (config_credentials (run history new_memory_store) "node_c0" 2000)
    ≡ "member_a0" ∷ []
unfolding config_credentials run sort_slice insert_sorted contains lookup create_group_grant
    set_node_groups_for_node create_node_group register_node find_entry create_bootstrap_token
    insert create_member format_int trim_space lt64 rebuild_node_config_locked to_lower
    render_node_config rebuild_all
history_test = refl

execute-HasConsistentAccess_example :
    HasConsistentAccess (execute (env "a") (Call.delete_member "m1") store)
execute-HasConsistentAccess_example =
    execute-HasConsistentAccess (env "a") (Call.delete_member "m1") store tt
      store-HasConsistentAccess

rebuild_node_config_locked-revision_example :
    (r : ConfigRevision) × ((rebuild_node_config_locked "n1" 2000 store).0 ≡ ok r)
    × (r.config_version ≡ add64 (version_of (lookup "n1" store.revisions)) 1)
    × (r.config ≡ marshal_indent (node_config tokyo (config_credentials store "n1" 2000)))
    × ((j : String)
        → lookup j (rebuild_node_config_locked "n1" 2000 store).1.revisions
          ≡ (if "n1" == j then some r else lookup j store.revisions))
    × SameAccess store (rebuild_node_config_locked "n1" 2000 store).1
unfolding lookup
rebuild_node_config_locked-revision_example =
    rebuild_node_config_locked-revision "n1" 2000 store tokyo refl

config_credentials-IsLiveUser_example :
    All (IsLiveUser store "n1" 2000) (config_credentials store "n1" 2000)
config_credentials-IsLiveUser_example =
    config_credentials-IsLiveUser store "n1" 2000 store-HasConsistentAccess

config_credentials-entitled_example :
    Distinct (map (λ c. c.member_id) (config_credentials store "n1" 2000))
    × ((member_id : String)
        → contains (map (λ c. c.member_id) (config_credentials store "n1" 2000)) member_id ≡ (
            entitled_directly store "n1" 2000 member_id
            || entitled_by_group store "n1" 2000 member_id))
config_credentials-entitled_example =
    config_credentials-entitled store "n1" 2000 (store-single "n1")

-- the configuration of the node has both members, though only one has a direct grant
config_credentials_test :
    map {B = String × String} (λ c. (c.member_id, c.uuid)) (config_credentials store "n1" 2000)
    ≡ ("m1", "u-alice") ∷ ("m2", "u-bob") ∷ []
unfolding config_credentials sort_slice insert_sorted lookup contains
config_credentials_test = refl

update_member-group_only_example :
    ((update_member (env "a") "m2" suspension store).0 ≡ ok (patched_member 1000 suspension bob))
    × (lookup "m2" (update_member (env "a") "m2" suspension store).1.members
        ≡ some (patched_member 1000 suspension bob))
    × ((update_member (env "a") "m2" suspension store).1.revisions ≡ store.revisions)
unfolding lookup any_of
update_member-group_only_example =
    update_member-group_only (env "a") "m2" suspension store bob refl refl

abbrev without_node : MemoryStore
without_node = record store { nodes = [] }

update_member-node_gone_example :
    (m' : Member) × ((update_member (env "a") "m1" suspension without_node).0 ≡ err not_found)
    × (lookup "m1" (update_member (env "a") "m1" suspension without_node).1.members ≡ some m')
    × IsPatched ((env "a").clock 0) suspension alice m'
    × IsSynced "m1" none (update_member (env "a") "m1" suspension without_node).1
unfolding lookup any_of
update_member-node_gone_example =
    update_member-node_gone (env "a") "m1" suspension without_node alice "n1" refl refl refl

runtime_users-node_config_example :
    (runtime_users (node_config tokyo (credential ∷ [])) ≡ ("u-alice", "u-alice") ∷ [])
    × (websocket_path (node_config tokyo (credential ∷ [])) ≡ "/tokyo")
runtime_users-node_config_example = runtime_users-node_config tokyo (credential ∷ [])
