-- ===== src/Store/Members/Staleness.antt =====
-- Which configurations `UpdateMember` of internal/store/memory.go rebuilds, and what it leaves behind.
use v2ray_platform.Base.{
  ℕ, suc, String, ◌≡◌, refl, ◌∙◌, true, false, not, ◌&&◌, Option, none, some, List, [], ◌∷◌, arith,
  ◌==◌, eq_iff, eq_refl, any_of, contains, contains-append, Bool-cases, Option-cases, inl, inr,
}
use v2ray_platform.Base.Result.{Result, ok, err, not_found}
use v2ray_platform.Maps.{Map, values, lookup, lookup-insert, lookup-insert_self, update_all}
use v2ray_platform.Render.{render_node_config}
use v2ray_platform.Domain.{Time, Member, NodeCredential, AccessGrant}
use v2ray_platform.Store.State.{MemoryStore, Env, UpdateMemberInput, patch}
use v2ray_platform.Store.Rebuild.{
  rebuild_all, rebuild_found, rebuild_node_config_locked, store_revision, after_rebuild,
}
use v2ray_platform.Store.Rebuild.Revision.{rebuild_all-SameAccess}
use v2ray_platform.Store.Access.Grants.{state-returning}
use v2ray_platform.Store.Members.{
  patched_member, with_patched_member, granted_nodes, add_key, sync_credentials, returning,
  update_member,
}

granted_nodes-none :
    (id : String) (gs : List AccessGrant) (nodes : List String)
    → any_of (λ g. g.member_id == id) gs ≡ false
    → granted_nodes id gs nodes ≡ nodes
unfolding granted_nodes any_of
granted_nodes-none id [] nodes h = refl
granted_nodes-none id (g ∷ gs) nodes h = ground (arith, granted_nodes-none id gs nodes)

-- An update of a member without a direct grant stores the member and rebuilds no configuration,
-- whatever groups grant the member access: all revisions stay as they are.
pub update_member-group_only :
    (e : Env) (id : String) (input : UpdateMemberInput) (s : MemoryStore) (m : Member)
    → lookup id s.members ≡ some m
    → any_of (λ g. g.member_id == id) (values s.grants) ≡ false
    → ((update_member e id input s).0 ≡ ok (patched_member (e.clock 0) input m))
      × (lookup id (update_member e id input s).1.members
          ≡ some (patched_member (e.clock 0) input m))
      × ((update_member e id input s).1.revisions ≡ s.revisions)
unfolding update_member rebuild_all
update_member-group_only e id input s m found none_granted =
    let no_nodes : granted_nodes id (values s.grants) [] ≡ [] =
      granted_nodes-none id (values s.grants) [] none_granted in
    (
      rw (found, no_nodes),
      rw (found, no_nodes) (lookup-insert_self id (patched_member (e.clock 0) input m) s.members),
      rw (found, no_nodes),
    )

contains-add_key :
    (k j : String) (ks : List String) → contains ks j ≡ true → contains (add_key k ks) j ≡ true
unfolding add_key
contains-add_key k j ks h = elim (Bool-cases (contains ks k)) [
  | inl known ↦ rw (known) h
  | inr new ↦ rw (new) (contains-append ks (k ∷ []) j ∙ rw (h) refl)
]

contains-add_key_self : (k : String) (ks : List String) → contains (add_key k ks) k ≡ true
unfolding add_key contains
contains-add_key_self k ks = elim (Bool-cases (contains ks k)) [
  | inl known ↦ rw (known) known
  | inr new ↦ rw (new) (contains-append ks (k ∷ []) k ∙ rw (new, eq_refl k) refl)
]

-- The nodes to rebuild are the given ones and those of the member's grants.
granted_nodes-given :
    (id n : String) (gs : List AccessGrant) (nodes : List String)
    → contains nodes n ≡ true
    → contains (granted_nodes id gs nodes) n ≡ true
unfolding granted_nodes
granted_nodes-given id n [] nodes h = h
granted_nodes-given id n (g ∷ gs) nodes h = elim (Bool-cases (g.member_id == id)) [
  | inl mine ↦ rw (mine) (granted_nodes-given id n gs _ (contains-add_key g.node_id n nodes h))
  | inr other ↦ rw (other) (granted_nodes-given id n gs nodes h)
]

granted_nodes-granted :
    (id n : String) (gs : List AccessGrant) (nodes : List String)
    → any_of (λ g. (g.member_id == id) && (g.node_id == n)) gs ≡ true
    → contains (granted_nodes id gs nodes) n ≡ true
unfolding granted_nodes any_of
granted_nodes-granted id n [] nodes h = cc
granted_nodes-granted id n (g ∷ gs) nodes h = elim (Bool-cases (g.member_id == id)) [
  | inr other ↦ rw (other) (granted_nodes-granted id n gs nodes (rw other at h))
  | inl mine ↦ elim (Bool-cases (g.node_id == n)) [
    | inr differs ↦ rw (mine) (granted_nodes-granted id n gs _ (rw (mine, differs) at h))
    | inl here ↦
        let same : g.node_id ≡ n = (eq_iff g.node_id n).0 here in
        rw (mine, same) (granted_nodes-given id n gs _ (contains-add_key_self n nodes))
  ]
]

-- The loop of rebuilds fails with not found as soon as one of its nodes is not stored.
rebuild_all-gone :
    (clock : ℕ → Time) (i : ℕ) (nodes : List String) (n : String) (s : MemoryStore)
    → contains nodes n ≡ true
    → lookup n s.nodes ≡ none
    → (rebuild_all clock i nodes s).0 ≡ err not_found
unfolding rebuild_all contains rebuild_node_config_locked rebuild_found store_revision after_rebuild
    render_node_config
rebuild_all-gone clock i [] n s listed gone = cc
rebuild_all-gone clock i (k ∷ rest) n s listed gone = elim (Option-cases (lookup k s.nodes)) [
  | inl missing ↦ rw (missing) refl
  | inr (node, found) ↦ elim (Bool-cases (k == n)) [
    | inl here ↦ let same : k ≡ n = (eq_iff k n).0 here in cc (rw (same, gone) at found)
    | inr other ↦ rw (found) (
        rebuild_all-gone clock (suc i) rest n _ (rw other at listed)
          (rw (lookup-insert, other) gone))
  ]
]

returned-error :
    (m : Member) (r : Result (Unit {0}) × MemoryStore)
    → r.0 ≡ err not_found
    → (returning m r).0 ≡ err not_found
unfolding returning
returned-error m (ok u, s) h = cc h
returned-error m (err x, s) h = cc h

-- a field after an update, which gives it a value or leaves it
abbrev pub Given : {A : Type 0} → Option A → A → A → Type 0
Given none old new = new ≡ old
Given (some value) old new = new ≡ value

-- The member that an update leaves, by the fields that it was asked to set.
pub record IsPatched (now : Time) (input : UpdateMemberInput) (m m' : Member) : Type 0 where
  pub same_id : m'.id ≡ m.id
  pub given_uuid : Given input.uuid m.uuid m'.uuid
  pub given_note : Given input.note m.note m'.note
  pub given_tier : Given input.tier_id m.tier_id m'.tier_id
  pub given_status : Given input.status m.status m'.status
  pub given_quota : Given input.quota_bytes_limit m.quota_bytes_limit m'.quota_bytes_limit
  pub given_reason : Given input.disabled_reason m.disabled_reason m'.disabled_reason
  pub updated : m'.updated_at ≡ now

-- no stored credential of the member has another UUID than the given one
abbrev pub IsSynced : String → Option String → MemoryStore → Type 0
IsSynced id none s = Unit {0}
IsSynced id (some uuid) s =
    any_of (λ c. (c.member_id == id) && not (c.uuid == uuid)) (values s.credentials) ≡ false

patch-Given : {A : Type 0} (o : Option A) (old : A) → Given o old (patch o old)
unfolding patch
patch-Given none old = refl
patch-Given (some value) old = refl

patched_member-IsPatched :
    (now : Time) (input : UpdateMemberInput) (m : Member)
    → IsPatched now input m (patched_member now input m)
unfolding patched_member
patched_member-IsPatched now input m = record {
  same_id = refl;
  given_uuid = patch-Given input.uuid m.uuid;
  given_note = patch-Given input.note m.note;
  given_tier = patch-Given input.tier_id m.tier_id;
  given_status = patch-Given input.status m.status;
  given_quota = patch-Given input.quota_bytes_limit m.quota_bytes_limit;
  given_reason = patch-Given input.disabled_reason m.disabled_reason;
  updated = refl;
}

sync_credentials-uuid :
    (id uuid : String) (creds : Map NodeCredential)
    → any_of
        (λ c. (c.member_id == id) && not (c.uuid == uuid))
        (values (sync_credentials id (some uuid) creds))
      ≡ false
unfolding sync_credentials update_all any_of
sync_credentials-uuid id uuid [] = refl
sync_credentials-uuid id uuid ((k, c) ∷ rest) =
    let ih = sync_credentials-uuid id uuid rest in
    elim (Bool-cases (c.member_id == id)) [
      | inl mine ↦ rw (mine, eq_refl uuid) (rw (mine) ih)
      | inr other ↦ rw (other, other) ih
    ]

sync_credentials-IsSynced :
    (id : String) (uuid : Option String) (s t : MemoryStore)
    → t.credentials ≡ sync_credentials id uuid s.credentials
    → IsSynced id uuid t
sync_credentials-IsSynced id none s t h = tt
sync_credentials-IsSynced id (some uuid) s t h =
    rw (h) (sync_credentials-uuid id uuid s.credentials)

-- If some node on which the member has a grant is not stored, an update reports that nothing was
-- found, and yet the member is stored with the UUID, note, tier, status, quota and reason that were
-- asked for, and no stored credential of the member has another UUID than the one that was given.
pub update_member-node_gone :
    (e : Env) (id : String) (input : UpdateMemberInput) (s : MemoryStore) (m : Member) (n : String)
    → lookup id s.members ≡ some m
    → any_of (λ g. (g.member_id == id) && (g.node_id == n)) (values s.grants) ≡ true
    → lookup n s.nodes ≡ none
    → (m' : Member) × ((update_member e id input s).0 ≡ err not_found)
      × (lookup id (update_member e id input s).1.members ≡ some m')
      × IsPatched (e.clock 0) input m m'
      × IsSynced id input.uuid (update_member e id input s).1
unfolding update_member with_patched_member
update_member-node_gone e id input s m n found granted gone =
    let nodes = granted_nodes id (values s.grants) [] in
    let listed : contains nodes n ≡ true =
      granted_nodes-granted id n (values s.grants) [] granted in
    let start = with_patched_member e id input s m in
    let m' = patched_member (e.clock 0) input m in
    let kept = rebuild_all-SameAccess e.clock 1 nodes start in
    let left = state-returning m' (rebuild_all e.clock 1 nodes start) in
    (
      m',
      rw (found) (
          returned-error m' (rebuild_all e.clock 1 nodes start)
            (rebuild_all-gone e.clock 1 nodes n start listed gone)),
      rw (found, left, kept.members) (lookup-insert_self id m' s.members),
      patched_member-IsPatched (e.clock 0) input m,
      sync_credentials-IsSynced id input.uuid s (update_member e id input s).1
          (rw (found, left) kept.credentials),
    )
