-- ===== src/Store/Access/Grants.antt =====
-- The methods on direct grants keep the invariant of access.
use v2ray_platform.Base.{
  String, ◌≡◌, refl, false, none, some, List, arith, ◌==◌, eq_iff, All-imp, Option-cases,
  Bool-cases, inl, inr, Distinct, Distinct-append_one, contains, subst, is_some,
}
use v2ray_platform.Base.Result.{Result, ok, err}
use v2ray_platform.Maps.{
  Map, values, lookup, insert, lookup-insert, lookup-insert_self, lookup-delete, delete_where-All,
  insert-All,
}
use v2ray_platform.Domain.{Member, AccessGrant, NodeCredential}
use v2ray_platform.Store.State.{MemoryStore, Env, CreateGrantInput, new_id}
use v2ray_platform.Store.Rebuild.Entitlement.{direct_members}
use v2ray_platform.Store.Rebuild.Revision.{rebuild-SameAccess}
use v2ray_platform.Store.Members.{returning}
use v2ray_platform.Store.Groups.{dropping}
use v2ray_platform.Store.Grants.{
  new_grant, new_credential, with_grant, already_granted, create_grant, without_grant, revoke_grant,
}
use v2ray_platform.Store.Access.{
  IsSound, HasConsistentAccess, SameAccess-HasConsistentAccess,
  Distinct-direct_members-delete_where, direct_members-insert_new, direct_members-granted,
}

pub state-dropping {ℓ} : {A : Type ℓ} (r : Result A × MemoryStore) → (dropping r).1 ≡ r.1
unfolding dropping
state-dropping (ok u, s) = refl
state-dropping (err x, s) = refl

pub state-returning {ℓ} :
    {A : Type ℓ} (a : A) (r : Result (Unit {0}) × MemoryStore) → (returning a r).1 ≡ r.1
unfolding returning
state-returning a (ok u, s) = refl
state-returning a (err x, s) = refl

module _ (e : Env) (input : CreateGrantInput) (s : MemoryStore) (m : Member)
    (found : lookup input.member_id s.members ≡ some m)
    (new_here : already_granted e input s ≡ false)
    (fresh_grant : lookup (new_grant e input).id s.grants ≡ none)
    (fresh_credential : lookup (new_credential e input m).id s.credentials ≡ none)
    (h : HasConsistentAccess s) where
  abbrev grants' : Map AccessGrant
  grants' = insert (new_grant e input).id (new_grant e input) s.grants

  keep_old : (c : NodeCredential) → IsSound s.grants s.members c → IsSound grants' s.members c
  keep_old c x = record {
    grant = x.grant;
    granted = ground (
      arith,
      lookup-insert (new_grant e input).id c.access_grant_id (new_grant e input) s.grants,
      eq_iff (new_grant e input).id c.access_grant_id,
      x.granted,
      fresh_grant,
    );
    grant_node = x.grant_node;
    grant_member = x.grant_member;
    member = x.member;
    present = x.present;
    same_uuid = x.same_uuid;
  }

  new-IsSound : IsSound grants' s.members (new_credential e input m)
  unfolding new_credential new_grant
  new-IsSound = record {
    grant = new_grant e input;
    granted = lookup-insert_self (new_grant e input).id (new_grant e input) s.grants;
    grant_node = refl;
    grant_member = refl;
    member = m;
    present = found;
    same_uuid = refl;
  }

  not_yet : contains (direct_members input.node_id s.credentials) input.member_id ≡ false
  unfolding already_granted
  not_yet =
      elim (Bool-cases (contains (direct_members input.node_id s.credentials) input.member_id)) [
        | inr absent ↦ absent
        | inl there ↦ cc (
          new_here,
          direct_members-granted s.grants s.members input.node_id input.member_id s.credentials
              h.sound there,
        )
      ]

  single' :
      (n : String)
      → Distinct (
          direct_members n
            (insert (new_credential e input m).id (new_credential e input m) s.credentials))
  unfolding new_credential
  single' n =
      let ms : List String = direct_members n s.credentials in
      rw
        (direct_members-insert_new n (new_credential e input m).id (new_credential e input m)
          s.credentials fresh_credential)
        (elim (Bool-cases (input.node_id == n)) [
          | inr other ↦ rw other (h.single n)
          | inl here ↦
              let is : input.node_id ≡ n = (eq_iff input.node_id n).0 here in
              rw here (
                Distinct-append_one ms input.member_id (h.single n) (
                  subst (λ k. contains (direct_members k s.credentials) input.member_id ≡ false) is
                    not_yet))
        ])

  with_grant-HasConsistentAccess : HasConsistentAccess (with_grant e input m s)
  unfolding with_grant
  with_grant-HasConsistentAccess = record {
    sound =
        insert-All (IsSound grants' s.members) (new_credential e input m).id
          (new_credential e input m) s.credentials new-IsSound
          (All-imp (IsSound s.grants s.members) (IsSound grants' s.members) (values s.credentials)
            keep_old h.sound);
    single = single';
  }

-- A direct grant for which identifiers not in use are drawn, also one that fails, keeps access
-- consistent: no member gets a second credential for a node.
pub create_grant-HasConsistentAccess :
    (e : Env) (input : CreateGrantInput) (s : MemoryStore)
    → lookup (new_id e "grant" 0) s.grants ≡ none
    → lookup (new_id e "cred" 1) s.credentials ≡ none
    → HasConsistentAccess s
    → HasConsistentAccess (create_grant e input s).1
unfolding create_grant
create_grant-HasConsistentAccess e input s fresh_grant fresh_credential h =
    elim (Bool-cases (is_some (lookup input.node_id s.nodes))) [
      | inr no_node ↦ rw no_node h
      | inl node ↦ rw node (elim (Option-cases (lookup input.member_id s.members)) [
        | inl missing ↦ rw missing h
        | inr (m, found) ↦ rw found (elim (Bool-cases (already_granted e input s)) [
          | inl old ↦ rw old h
          | inr new_here ↦
              rw (new_here, state-returning, state-dropping)
                (SameAccess-HasConsistentAccess
                  (rebuild-SameAccess input.node_id (e.clock 1) (with_grant e input m s))
                  (with_grant-HasConsistentAccess e input s m found new_here
                    (unfold new_grant in fresh_grant) (unfold new_credential in fresh_credential)
                    h))
        ])
      ])
    ]

keep_without :
    (grant_id : String) (s : MemoryStore) (c : NodeCredential)
    → c.access_grant_id == grant_id ≡ false
    → IsSound s.grants s.members c
    → IsSound (without_grant grant_id s).grants s.members c
unfolding without_grant
keep_without grant_id s c other x = record {
  grant = x.grant;
  granted = ground (
    arith,
    lookup-delete grant_id c.access_grant_id s.grants,
    eq_iff grant_id c.access_grant_id,
    eq_iff c.access_grant_id grant_id,
    x.granted,
  );
  grant_node = x.grant_node;
  grant_member = x.grant_member;
  member = x.member;
  present = x.present;
  same_uuid = x.same_uuid;
}

without_grant-HasConsistentAccess :
    (grant_id : String) (s : MemoryStore)
    → HasConsistentAccess s
    → HasConsistentAccess (without_grant grant_id s)
unfolding without_grant
without_grant-HasConsistentAccess grant_id s h = record {
  sound =
      delete_where-All (IsSound s.grants s.members)
        (IsSound (without_grant grant_id s).grants s.members) (λ c. c.access_grant_id == grant_id)
        s.credentials (keep_without grant_id s) h.sound;
  single = λ n.
      Distinct-direct_members-delete_where n (λ c. c.access_grant_id == grant_id) s.credentials
        (h.single n);
}

-- A revocation of a grant, also one that fails, keeps access consistent: no credential is left without
-- its grant.
pub revoke_grant-HasConsistentAccess :
    (e : Env) (grant_id : String) (s : MemoryStore)
    → HasConsistentAccess s
    → HasConsistentAccess (revoke_grant e grant_id s).1
unfolding revoke_grant
revoke_grant-HasConsistentAccess e grant_id s h = elim (Option-cases (lookup grant_id s.grants)) [
  | inl missing ↦ rw missing h
  | inr (g, found) ↦
      rw (found, state-dropping)
        (SameAccess-HasConsistentAccess
          (rebuild-SameAccess g.node_id (e.clock 0) (without_grant grant_id s))
          (without_grant-HasConsistentAccess grant_id s h))
]
