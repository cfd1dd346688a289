-- ===== src/Store/Calls/Followed.antt =====
-- What the methods of the store keep of an admin's session: it stays stored, with its admin, and once
-- it is revoked it stays so.
use v2ray_platform.Base.{
  String, ◌≡◌, refl, true, Option, none, some, [], ◌==◌, eq_iff, is_some, sym, ◌∙◌, ap, subst,
  Bool-cases, Option-cases, inl, inr, if◌then◌else◌,
}
use v2ray_platform.Maps.{values, lookup, lookup-insert, update_all}
use v2ray_platform.Domain.{AdminSession, Member, AccessGrant}
use v2ray_platform.Store.State.{MemoryStore, Env, UpdateMemberInput, CreateGrantInput}
use v2ray_platform.Store.Sessions
use v2ray_platform.Store.Sessions.Revocation.{lookup-update_all}
use v2ray_platform.Store.Members
use v2ray_platform.Store.Grants
use v2ray_platform.Store.Access.Grants.{state-returning, state-dropping}
use v2ray_platform.Store.Rebuild.Revision.{rebuild_all-SameAccess, rebuild-SameAccess}

-- a later state of a session
pub record IsLater (x y : AdminSession) : Type 0 where
  pub same_admin : y.admin_id ≡ x.admin_id
  pub still_revoked : is_some x.revoked_at ≡ true → is_some y.revoked_at ≡ true

-- The session of an identifier is stored, and is a later state of one.
pub record IsFollowed (id : String) (x : AdminSession) (s : MemoryStore) : Type 0 where
  pub session : AdminSession
  pub is_stored : lookup id s.admin_sessions ≡ some session
  pub is_later : IsLater x session

module _ (id : String) (x : AdminSession) where
  pub unchanged :
      (s t : MemoryStore)
      → t.admin_sessions ≡ s.admin_sessions
      → IsFollowed id x s
      → IsFollowed id x t
  unchanged s t h f = record {
    session = f.session;
    is_stored = rw (h) f.is_stored;
    is_later = f.is_later;
  }

  IsLater-trans : (y z : AdminSession) → IsLater x y → IsLater y z → IsLater x z
  IsLater-trans y z a b = record {
    same_admin = b.same_admin ∙ a.same_admin;
    still_revoked = λ h. b.still_revoked (a.still_revoked h);
  }

  pub changed :
      (f : AdminSession → AdminSession)
      → ((y : AdminSession) → IsLater y (f y))
      → (j : String) (s : MemoryStore) (o : Option AdminSession) → lookup j s.admin_sessions ≡ o
      → IsFollowed id x s
      → IsFollowed id x (Sessions.change_session f j s o).1
  unfolding Sessions.change_session
  changed f later j s none e h = h
  changed f later j s (some y) e h = elim (Bool-cases (j == id)) [
    | inr other ↦ record {
      session = h.session;
      is_stored =
          lookup-insert j id (f y) s.admin_sessions
          ∙ ap (λ b. if b then some (f y) else lookup id s.admin_sessions) other
          ∙ h.is_stored;
      is_later = h.is_later;
    }
    | inl here ↦
        let same : j ≡ id = (eq_iff j id).0 here in
        let found : lookup id s.admin_sessions ≡ some y = rw (← same) e in
        let both : some y ≡ some h.session = sym found ∙ h.is_stored in
        let y_is : y ≡ h.session = cc both in
        record {
          session = f y;
          is_stored =
              lookup-insert j id (f y) s.admin_sessions
              ∙ ap (λ b. if b then some (f y) else lookup id s.admin_sessions) here;
          is_later = IsLater-trans y (f y) (subst (IsLater x) (sym y_is) h.is_later) (later y);
        }
  ]

  pub all_changed :
      (f : AdminSession → AdminSession)
      → ((y : AdminSession) → IsLater y (f y))
      → (s t : MemoryStore) → t.admin_sessions ≡ update_all f s.admin_sessions
      → IsFollowed id x s
      → IsFollowed id x t
  all_changed f later s t e h = record {
    session = f h.session;
    is_stored = rw (e) (lookup-update_all f id h.session s.admin_sessions h.is_stored);
    is_later = IsLater-trans h.session (f h.session) h.is_later (later h.session);
  }

-- The methods on members and direct grants leave the sessions as they are.
module _ (e : Env) (s : MemoryStore) where
  pub update_member-admin_sessions :
      (id : String) (input : UpdateMemberInput) (o : Option Member)
      → (Members.update_found e id input s o).1.admin_sessions ≡ s.admin_sessions
  unfolding Members.update_found Members.with_patched_member
  update_member-admin_sessions id input none = refl
  update_member-admin_sessions id input (some m) =
      rw (state-returning)
        (rebuild_all-SameAccess e.clock 1 (Members.granted_nodes id (values s.grants) [])
          (Members.with_patched_member e id input s m)).admin_sessions

  pub delete_member-admin_sessions :
      (id : String) (o : Option Member)
      → (Members.delete_found e id s o).1.admin_sessions ≡ s.admin_sessions
  unfolding Members.delete_found Members.without_member
  delete_member-admin_sessions id none = refl
  delete_member-admin_sessions id (some m) =
      (rebuild_all-SameAccess e.clock 0
        (Members.credential_nodes id (values s.credentials)
          (Members.granted_nodes id (values s.grants) []))
        (Members.without_member e id s)).admin_sessions

  pub create_grant-admin_sessions :
      (input : CreateGrantInput)
      → (Grants.create_grant e input s).1.admin_sessions ≡ s.admin_sessions
  unfolding Grants.create_grant Grants.with_grant
  create_grant-admin_sessions input = elim (Bool-cases (is_some (lookup input.node_id s.nodes))) [
    | inr no_node ↦ rw no_node refl
    | inl node ↦ rw node (elim (Option-cases (lookup input.member_id s.members)) [
      | inl missing ↦ rw missing refl
      | inr (m, found) ↦ rw found (elim (Bool-cases (Grants.already_granted e input s)) [
        | inl old ↦ rw old refl
        | inr new_here ↦
            rw (new_here, state-returning, state-dropping)
              (rebuild-SameAccess input.node_id (e.clock 1)
                (Grants.with_grant e input m s)).admin_sessions
      ])
    ])
  ]

  pub revoke_grant-admin_sessions :
      (id : String) (o : Option AccessGrant)
      → (Grants.revoke_found e id s o).1.admin_sessions ≡ s.admin_sessions
  unfolding Grants.revoke_found Grants.without_grant
  revoke_grant-admin_sessions id none = refl
  revoke_grant-admin_sessions id (some grant) =
      rw (state-dropping)
        (rebuild-SameAccess grant.node_id (e.clock 0) (Grants.without_grant id s)).admin_sessions
