-- ===== src/Store/Access/Members.antt =====
-- The methods on members keep the invariant of access.
use v2ray_platform.Base.{
  String, ◌≡◌, ◌≢◌, refl, false, Option, none, some, List, [], ◌∷◌, arith, ◌==◌, eq_iff, ap,
  if◌then◌else◌, All-imp, Option-cases, Bool-cases, inl, inr,
}
use v2ray_platform.Maps.{
  Map, values, lookup, insert, update_all, lookup-insert, lookup-insert_self, lookup-delete,
  lookup-delete_where, delete_where-All, update_all-All,
}
use v2ray_platform.Domain.{Member, NodeCredential}
use v2ray_platform.Store.State.{MemoryStore, Env, CreateMemberInput, UpdateMemberInput, patch}
use v2ray_platform.Store.Rebuild.Entitlement.{direct_members}
use v2ray_platform.Store.Rebuild.Revision.{rebuild_all-SameAccess}
use v2ray_platform.Store.Access.Grants.{state-returning}
use v2ray_platform.Store.Members.{
  created_member, create_member, patched_member, sync_credentials, with_patched_member,
  update_member, without_member, delete_member, granted_nodes, credential_nodes,
}
use v2ray_platform.Store.Access.{
  IsSound, IsConsistent, HasConsistentAccess, SameAccess-HasConsistentAccess,
  Distinct-direct_members-delete_where,
}

-- Creating a member whose identifier is not in use keeps access consistent: every credential stands on
-- a grant of its member on its node and carries the UUID of its stored member, and no member has two
-- credentials for a node.
pub create_member-HasConsistentAccess :
    (e : Env) (input : CreateMemberInput) (s : MemoryStore)
    → lookup (created_member e input).id s.members ≡ none
    → HasConsistentAccess s
    → HasConsistentAccess (create_member e input s).1
unfolding create_member
create_member-HasConsistentAccess e input s fresh h = record {
  sound =
      All-imp (IsSound s.grants s.members) (IsSound s.grants members') (values s.credentials) keep
        h.sound;
  single = h.single;
}
  where
    new : Member
    new = created_member e input

    members' : Map Member
    members' = insert new.id new s.members

    keep : (c : NodeCredential) → IsSound s.grants s.members c → IsSound s.grants members' c
    keep c x = record {
      grant = x.grant;
      granted = x.granted;
      grant_node = x.grant_node;
      grant_member = x.grant_member;
      member = x.member;
      present = ground (
        arith,
        lookup-insert new.id c.member_id new s.members,
        eq_iff new.id c.member_id,
        x.present,
        fresh,
      );
      same_uuid = x.same_uuid;
    }

-- the credential that the loop of `UpdateMember` leaves
abbrev with_uuid : String → String → NodeCredential → NodeCredential
with_uuid id uuid c = if c.member_id == id then record c { uuid = uuid } else c

direct_members-with_uuid :
    (n id uuid : String) (m : Map NodeCredential)
    → direct_members n (update_all (with_uuid id uuid) m) ≡ direct_members n m
unfolding direct_members update_all
direct_members-with_uuid n id uuid [] = refl
direct_members-with_uuid n id uuid ((k, c) ∷ m) =
    ground (arith, direct_members-with_uuid n id uuid m)

module _ (e : Env) (id : String) (input : UpdateMemberInput) (s : MemoryStore) (m : Member)
    (found : lookup id s.members ≡ some m) where
  abbrev patched : Member
  patched = patched_member (e.clock 0) input m

  keep_patched :
      (c c' : NodeCredential)
      → c'.access_grant_id ≡ c.access_grant_id
      → c'.node_id ≡ c.node_id
      → c'.member_id ≡ c.member_id
      → (c.member_id ≡ id → c'.uuid ≡ patched.uuid)
      → (c.member_id ≢ id → c'.uuid ≡ c.uuid)
      → IsSound s.grants s.members c
      → IsSound s.grants (insert id patched s.members) c'
  keep_patched c c' same_grant same_node same_member mine other x =
      elim (Bool-cases (c.member_id == id)) [
        | inl yes' ↦
            let is : c.member_id ≡ id = (eq_iff c.member_id id).0 yes' in
            record {
              grant = x.grant;
              granted = rw same_grant x.granted;
              grant_node = rw same_node x.grant_node;
              grant_member = rw same_member x.grant_member;
              member = patched;
              present = rw (same_member, is) (lookup-insert_self id patched s.members);
              same_uuid = mine is;
            }
        | inr no' ↦
            let not_is : c.member_id ≢ id = ground (arith, eq_iff c.member_id id) in
            record {
              grant = x.grant;
              granted = rw same_grant x.granted;
              grant_node = rw same_node x.grant_node;
              grant_member = rw same_member x.grant_member;
              member = x.member;
              present = rw same_member (
                  ground (
                    arith,
                    lookup-insert id c.member_id patched s.members,
                    eq_iff id c.member_id,
                    x.present,
                  ));
              same_uuid = rw (other not_is) x.same_uuid;
            }
      ]

  sync-IsConsistent :
      (o : Option String)
      → input.uuid ≡ o
      → HasConsistentAccess s
      → IsConsistent s.grants (sync_credentials id o s.credentials) (insert id patched s.members)
  unfolding sync_credentials patched_member patch
  sync-IsConsistent none same h = record {
    sound =
        All-imp (IsSound s.grants s.members) (IsSound s.grants (insert id patched s.members))
          (values s.credentials)
          (λ c x.
            keep_patched c c refl refl refl
              (λ is.
                rw same
                  (ground (arith, x.same_uuid, x.present, found, ap (λ k. lookup k s.members) is)))
              (λ _. refl) x)
          h.sound;
    single = h.single;
  }
  sync-IsConsistent (some uuid) same h = record {
    sound =
        update_all-All (IsSound s.grants s.members) (IsSound s.grants (insert id patched s.members))
          (with_uuid id uuid) s.credentials
          (λ c x.
            keep_patched c (with_uuid id uuid c) (ground arith) (ground arith) (ground arith)
              (λ is. rw same (ground (arith, eq_iff c.member_id id)))
              (λ is_not. ground (arith, eq_iff c.member_id id)) x)
          h.sound;
    single = λ n. rw (direct_members-with_uuid n id uuid s.credentials) (h.single n);
  }

-- An update of a member, also one that fails, keeps access consistent: the credentials of the member
-- still carry its UUID.
pub update_member-HasConsistentAccess :
    (e : Env) (id : String) (input : UpdateMemberInput) (s : MemoryStore)
    → HasConsistentAccess s
    → HasConsistentAccess (update_member e id input s).1
unfolding update_member
update_member-HasConsistentAccess e id input s h = elim (Option-cases (lookup id s.members)) [
  | inl missing ↦ rw missing h
  | inr (m, found) ↦
      let t : MemoryStore = with_patched_member e id input s m in
      let nodes : List String = granted_nodes id (values s.grants) [] in
      let done : HasConsistentAccess t =
        unfold with_patched_member in sync-IsConsistent e id input s m found input.uuid refl h in
      rw (found, state-returning)
        (SameAccess-HasConsistentAccess (rebuild_all-SameAccess e.clock 1 nodes t) done)
]

keep_other :
    (e : Env) (id : String) (s : MemoryStore) (c : NodeCredential)
    → c.member_id == id ≡ false
    → IsSound s.grants s.members c
    → IsSound (without_member e id s).grants (without_member e id s).members c
unfolding without_member
keep_other e id s c other x = record {
  grant = x.grant;
  granted =
      lookup-delete_where (λ g. g.member_id == id) c.access_grant_id x.grant s.grants x.granted
        (rw x.grant_member other);
  grant_node = x.grant_node;
  grant_member = x.grant_member;
  member = x.member;
  present = ground (
    arith,
    lookup-delete id c.member_id s.members,
    eq_iff id c.member_id,
    eq_iff c.member_id id,
    x.present,
  );
  same_uuid = x.same_uuid;
}

without_member-HasConsistentAccess :
    (e : Env) (id : String) (s : MemoryStore)
    → HasConsistentAccess s
    → HasConsistentAccess (without_member e id s)
unfolding without_member
without_member-HasConsistentAccess e id s h = record {
  sound =
      delete_where-All (IsSound s.grants s.members)
        (IsSound (without_member e id s).grants (without_member e id s).members)
        (λ c. c.member_id == id) s.credentials (keep_other e id s) h.sound;
  single = λ n.
      Distinct-direct_members-delete_where n (λ c. c.member_id == id) s.credentials (h.single n);
}

-- A deletion of a member, also one that fails, keeps access consistent: no credential is left without
-- its member or its grant.
pub delete_member-HasConsistentAccess :
    (e : Env) (id : String) (s : MemoryStore)
    → HasConsistentAccess s
    → HasConsistentAccess (delete_member e id s).1
unfolding delete_member
delete_member-HasConsistentAccess e id s h = elim (Option-cases (lookup id s.members)) [
  | inl missing ↦ rw missing h
  | inr (m, found) ↦ rw found (
      SameAccess-HasConsistentAccess
        (rebuild_all-SameAccess e.clock 0
          (credential_nodes id (values s.credentials) (granted_nodes id (values s.grants) []))
          (without_member e id s))
        (without_member-HasConsistentAccess e id s h))
]
