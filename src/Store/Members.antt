-- ===== src/Store/Members.antt =====
-- internal/store/memory.go: members.
pub mod Staleness
use v2ray_platform.Base.{
  ℕ, suc, String, ◌&&◌, Bool, true, false, Option, none, some, List, [], ◌∷◌, ◌++◌, map, ◌==◌, ltb,
  if◌then◌else◌, contains,
}
use v2ray_platform.Base.Result.{Result, ok, err, not_found}
use v2ray_platform.Base.Sort.{sort_slice}
use v2ray_platform.Base.Text.{trim_space, to_lower}
use v2ray_platform.Maps.{Map, values, lookup, insert, delete, delete_where, update_all, find_entry}
use v2ray_platform.Domain.{Time, Member, AccessGrant, NodeCredential, member_status_active}
use v2ray_platform.Store.State.{
  MemoryStore, Method, Env, CreateMemberInput, UpdateMemberInput, new_id, patch,
}
use v2ray_platform.Store.Rebuild.{rebuild_all, after_rebuild}

unfoldable pub created_member : Env → CreateMemberInput → Member
unfolding new_id
created_member e input = record {
  id = new_id e "member" 0;
  uuid = e.new_uuid 1;
  name = input.name;
  email = to_lower (trim_space input.email);
  note = input.note;
  status = member_status_active;
  expires_at = none;
  quota_bytes_limit = 0;
  tier_id = "";
  subscription_token = e.new_uuid 2;
  disabled_reason = "";
  created_at = e.clock 0;
  updated_at = e.clock 0;
}

unfoldable pub create_member : Env → CreateMemberInput → Method Member
unfolding created_member
create_member e input s =
    let member = created_member e input in
    (ok member, record s { members = insert member.id member s.members })

unfoldable pub patch_expiry : Bool → Option Time → Option Time → Option Time
patch_expiry true new old = none
patch_expiry false none old = old
patch_expiry false (some t) old = some t

abbrev pub trimmed : Option String → Option String
trimmed none = none
trimmed (some t) = some (trim_space t)

abbrev pub lowered : Option String → Option String
lowered none = none
lowered (some t) = some (to_lower (trim_space t))

-- the member with the fields of the input that are not nil
unfoldable pub patched_member : Time → UpdateMemberInput → Member → Member
unfolding patch patch_expiry
patched_member now input m = record m {
  name = patch (trimmed input.name) m.name;
  email = patch (lowered input.email) m.email;
  note = patch input.note m.note;
  uuid = patch input.uuid m.uuid;
  tier_id = patch input.tier_id m.tier_id;
  status = patch input.status m.status;
  expires_at = patch_expiry input.clear_expiry input.expires_at m.expires_at;
  quota_bytes_limit = patch input.quota_bytes_limit m.quota_bytes_limit;
  disabled_reason = patch input.disabled_reason m.disabled_reason;
  updated_at = now;
}

-- the loop that gives the stored credentials of the member the new UUID
unfoldable pub sync_credentials : String → Option String → Map NodeCredential → Map NodeCredential
sync_credentials member_id none creds = creds
sync_credentials member_id (some uuid) creds =
    update_all (λ c. if c.member_id == member_id then record c { uuid = uuid } else c) creds

-- a key put into a map that stands for a set
unfoldable pub add_key : String → List String → List String
add_key k ks = if contains ks k then ks else ks ++ k ∷ []

-- `affectedNodes` after the loop over the grants
unfoldable pub granted_nodes : String → List AccessGrant → List String → List String
unfolding add_key
granted_nodes member_id [] nodes = nodes
granted_nodes member_id (g ∷ rest) nodes =
    granted_nodes member_id rest
      (if g.member_id == member_id then add_key g.node_id nodes else nodes)

unfoldable pub credential_nodes : String → List NodeCredential → List String → List String
unfolding add_key
credential_nodes member_id [] nodes = nodes
credential_nodes member_id (c ∷ rest) nodes =
    credential_nodes member_id rest
      (if c.member_id == member_id then add_key c.node_id nodes else nodes)

-- the result of a method that ends in the loop of rebuilds
unfoldable pub returning {ℓ} :
    {A : Type ℓ} → A → Result (Unit {0}) × MemoryStore → Result A × MemoryStore
returning a (ok u, s) = (ok a, s)
returning a (err e, s) = (err e, s)

module _ (e : Env) (member_id : String) (input : UpdateMemberInput) (s : MemoryStore) where
  -- the store before the rebuilds
  unfoldable pub with_patched_member : Member → MemoryStore
  unfolding patched_member sync_credentials
  with_patched_member m = record s {
    members = insert member_id (patched_member (e.clock 0) input m) s.members;
    credentials = sync_credentials member_id input.uuid s.credentials;
  }

  unfoldable pub update_found : Option Member → Result Member × MemoryStore
  unfolding with_patched_member granted_nodes returning
  update_found none = (err not_found, s)
  update_found (some m) =
      returning (patched_member (e.clock 0) input m) (
        rebuild_all e.clock 1 (granted_nodes member_id (values s.grants) [])
          (with_patched_member m))

unfoldable pub update_member : Env → String → UpdateMemberInput → Method Member
unfolding update_found
update_member e member_id input s = update_found e member_id input s (lookup member_id s.members)

module _ (e : Env) (member_id : String) (s : MemoryStore) where
  -- the member, the grants and the stored credentials of the member are gone
  unfoldable pub without_member : MemoryStore
  without_member = record s {
    members = delete member_id s.members;
    grants = delete_where (λ g. g.member_id == member_id) s.grants;
    credentials = delete_where (λ c. c.member_id == member_id) s.credentials;
  }

  unfoldable pub delete_found : Option Member → Result (Unit {0}) × MemoryStore
  unfolding without_member granted_nodes credential_nodes
  delete_found none = (err not_found, s)
  delete_found (some m) =
      rebuild_all e.clock 0
        (credential_nodes member_id (values s.credentials)
          (granted_nodes member_id (values s.grants) []))
        without_member

unfoldable pub delete_member : Env → String → Method (Unit {0})
unfolding delete_found
delete_member e member_id s = delete_found e member_id s (lookup member_id s.members)

-- `ListMembers`, oldest first
unfoldable pub list_members : MemoryStore → List Member
list_members s = sort_slice (λ a b. ltb a.created_at b.created_at) (values s.members)

unfoldable pub found_value {ℓ} : {A : Type ℓ} → Option (String × A) → Result A
found_value none = err not_found
found_value (some (k, a)) = ok a

unfoldable pub get_member_by_subscription_token : String → MemoryStore → Result Member
unfolding found_value
get_member_by_subscription_token token s =
    found_value (find_entry (λ m. m.subscription_token == token) s.members)
