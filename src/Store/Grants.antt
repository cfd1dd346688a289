-- ===== src/Store/Grants.antt =====
-- internal/store/memory.go: the direct grants of members to nodes, and their credentials.
use v2ray_platform.Base.{
  String, Bool, ◌&&◌, Option, none, some, List, map, ◌==◌, ltb, if◌then◌else◌, is_some, any_of,
}
use v2ray_platform.Base.Result.{Result, err, not_found, conflict, wrapped}
use v2ray_platform.Base.Sort.{sort_slice}
use v2ray_platform.Maps.{values, lookup, insert, delete, delete_where}
use v2ray_platform.Domain.{Node, Member, AccessGrant, NodeCredential, GrantView}
use v2ray_platform.Store.State.{MemoryStore, Method, Env, CreateGrantInput, new_id}
use v2ray_platform.Store.Rebuild.{rebuild_node_config_locked, credential_email}
use v2ray_platform.Store.Members.{returning}
use v2ray_platform.Store.Groups.{dropping}

module _ (e : Env) (input : CreateGrantInput) where
  unfoldable pub new_grant : AccessGrant
  unfolding new_id
  new_grant = record {
    id = new_id e "grant" 0;
    node_id = input.node_id;
    member_id = input.member_id;
    created_at = e.clock 0;
  }

  unfoldable pub new_credential : Member → NodeCredential
  unfolding new_id new_grant
  new_credential member = record {
    id = new_id e "cred" 1;
    node_id = input.node_id;
    member_id = input.member_id;
    access_grant_id = new_grant.id;
    uuid = member.uuid;
    email = credential_email member input.node_id;
    created_at = e.clock 0;
  }

  unfoldable pub with_grant : Member → MemoryStore → MemoryStore
  unfolding new_grant new_credential
  with_grant member s = record s {
    grants = insert new_grant.id new_grant s.grants;
    credentials = insert (new_credential member).id (new_credential member) s.credentials;
  }

  -- the loop that looks for a grant of the member on the node
  unfoldable pub already_granted : MemoryStore → Bool
  already_granted s =
      any_of (λ g. g.node_id == input.node_id && g.member_id == input.member_id) (values s.grants)

  unfoldable pub grant_to :
      MemoryStore → Option Member → Result (AccessGrant × NodeCredential) × MemoryStore
  unfolding with_grant already_granted dropping returning
  grant_to s none = (err not_found, s)
  grant_to s (some member) =
      if already_granted s
      then (err (wrapped conflict "grant already exists"), s)
      else returning (new_grant, new_credential member)
          (dropping (rebuild_node_config_locked input.node_id (e.clock 1) (with_grant member s)))

unfoldable pub create_grant : Env → CreateGrantInput → Method (AccessGrant × NodeCredential)
unfolding grant_to
create_grant e input s =
    if is_some (lookup input.node_id s.nodes)
    then grant_to e input s (lookup input.member_id s.members)
    else (err not_found, s)

unfoldable pub without_grant : String → MemoryStore → MemoryStore
without_grant grant_id s = record s {
  grants = delete grant_id s.grants;
  credentials = delete_where (λ c. c.access_grant_id == grant_id) s.credentials;
}

unfoldable pub revoke_found :
    Env → String → MemoryStore → Option AccessGrant → Result (Unit {0}) × MemoryStore
unfolding without_grant dropping
revoke_found e grant_id s none = (err not_found, s)
revoke_found e grant_id s (some grant) =
    dropping (rebuild_node_config_locked grant.node_id (e.clock 0) (without_grant grant_id s))

unfoldable pub revoke_grant : Env → String → Method (Unit {0})
unfolding revoke_found
revoke_grant e grant_id s = revoke_found e grant_id s (lookup grant_id s.grants)

abbrev node_name_of : Option Node → String
node_name_of none = ""
node_name_of (some n) = n.name

abbrev member_name_of : Option Member → String
member_name_of none = ""
member_name_of (some m) = m.name

abbrev member_email_of : Option Member → String
member_email_of none = ""
member_email_of (some m) = m.email

unfoldable pub grant_view : MemoryStore → AccessGrant → GrantView
grant_view s g = record {
  id = g.id;
  node_id = g.node_id;
  node_name = node_name_of (lookup g.node_id s.nodes);
  member_id = g.member_id;
  member_name = member_name_of (lookup g.member_id s.members);
  member_email = member_email_of (lookup g.member_id s.members);
  created_at = g.created_at;
}

unfoldable pub list_grants : MemoryStore → List GrantView
unfolding grant_view
list_grants s =
    sort_slice (λ a b. ltb a.created_at b.created_at) (map (grant_view s) (values s.grants))
