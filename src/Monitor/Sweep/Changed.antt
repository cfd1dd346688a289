-- ===== src/Monitor/Sweep/Changed.antt =====
-- internal/ops/monitor.go: what one round of the sweep changes in the store.
use v2ray_platform.Base.{
  ℕ, suc, String, ◌≡◌, refl, false, some, List, [], ◌∷◌, map, arith, ◌==◌, eq_iff, if◌then◌else◌,
  contains, All, Bool-cases, inl, inr, ◌∙◌, ap, subst,
}
use v2ray_platform.Base.Result.{Result, ok, err}
use v2ray_platform.Maps.{values, lookup, lookup-insert}
use v2ray_platform.Domain.{Time, Member, MemberStatus, ConfigRevision}
use v2ray_platform.Store.State.{MemoryStore, Env, patch}
use v2ray_platform.Store.Rebuild.{rebuild_all, after_rebuild, rebuild_node_config_locked}
use v2ray_platform.Store.Rebuild.Revision.{rebuild_all-SameAccess}
use v2ray_platform.Store.Access.Grants.{state-returning}
use v2ray_platform.Store.Members.{
  update_member, update_found, with_patched_member, patched_member, patch_expiry, granted_nodes,
}
use v2ray_platform.Store.Paging.{record_audit_log}
use v2ray_platform.Monitor.Sweep.{
  Verdict, keep, change, status_change, audited, sweep_member, and_then,
}

-- A member after the sweep at an instant.
abbrev pub swept_member : Verdict → Time → Member → Member
swept_member keep t m = m
swept_member (change status reason action payload) t m = record m {
  status = status;
  disabled_reason = reason;
  updated_at = t;
}

after_rebuild-usage :
    (s : MemoryStore) (rest : MemoryStore → Result (Unit {0}) × MemoryStore)
    → ((t : MemoryStore) → (rest t).1.usage_snapshots ≡ t.usage_snapshots)
    → (r : Result ConfigRevision × MemoryStore) → r.1.usage_snapshots ≡ s.usage_snapshots
    → (after_rebuild rest r).1.usage_snapshots ≡ s.usage_snapshots
unfolding after_rebuild
after_rebuild-usage s rest keeps (err e, t) h = h
after_rebuild-usage s rest keeps (ok r, t) h = keeps t ∙ h

rebuild-usage :
    (node_id : String) (now : Time) (s : MemoryStore)
    → (rebuild_node_config_locked node_id now s).1.usage_snapshots ≡ s.usage_snapshots
unfolding rebuild_node_config_locked
rebuild-usage node_id now s = ground arith

rebuild_all-usage :
    (clock : ℕ → Time) (i : ℕ) (nodes : List String) (s : MemoryStore)
    → (rebuild_all clock i nodes s).1.usage_snapshots ≡ s.usage_snapshots
unfolding rebuild_all
rebuild_all-usage clock i [] s = refl
rebuild_all-usage clock i (n ∷ rest) s =
    after_rebuild-usage s (rebuild_all clock (suc i) rest)
      (λ t. rebuild_all-usage clock (suc i) rest t) (rebuild_node_config_locked n (clock i) s)
      (rebuild-usage n (clock i) s)

-- A change of the status of a stored member, whether its rebuilds succeed or not.
pub record Changed (s t : MemoryStore) (member : Member) : Type 0 where
  pub members :
      (j : String)
      → lookup j t.members ≡ (if member.id == j then some member else lookup j s.members)
  pub usage : t.usage_snapshots ≡ s.usage_snapshots

update_member-Changed :
    (e : Env) (m : Member) (status : MemberStatus) (reason : String) (s : MemoryStore)
    → lookup m.id s.members ≡ some m
    → Changed s
        (update_member e m.id (status_change status reason) s).1
        (record m { status = status; disabled_reason = reason; updated_at = e.clock 0 })
unfolding update_member update_found with_patched_member patched_member patch patch_expiry
update_member-Changed e m status reason s found =
    let input = status_change status reason in
    let patched = with_patched_member e m.id input s m in
    let nodes = granted_nodes m.id (values s.grants) [] in
    let after = rebuild_all e.clock 1 nodes patched in
    let same = state-returning (patched_member (e.clock 0) input m) after in
    rw (found) (record {
      members = λ j.
          ap (λ (t : MemoryStore). lookup j t.members) same
          ∙ ap (lookup j) (rebuild_all-SameAccess e.clock 1 nodes patched).members
          ∙ lookup-insert m.id j (patched_member (e.clock 0) input m) s.members;
      usage =
          ap (λ (t : MemoryStore). t.usage_snapshots) same
          ∙ rebuild_all-usage e.clock 1 nodes patched;
    })

audited-Changed :
    (e : Env) (action id payload : String) (s : MemoryStore) (m : Member)
    (r : Result Member × MemoryStore)
    → Changed s r.1 m
    → Changed s (audited e action id payload r).1 m
unfolding audited record_audit_log
audited-Changed e action id payload s m (err x, t) h = h
audited-Changed e action id payload s m (ok u, t) h = record {
  members = h.members;
  usage = h.usage;
}

kept : (s : MemoryStore) (m : Member) → lookup m.id s.members ≡ some m → Changed s s m
kept s m found = record {
  members = λ j. elim (Bool-cases (m.id == j)) [
    | inl here ↦
        let e : m.id ≡ j = (eq_iff m.id j).0 here in
        rw (here) (subst (λ x. lookup x s.members ≡ some m) e found)
    | inr other ↦ rw (other) refl
  ];
  usage = refl;
}

-- One round changes the member by its verdict, and no other member.
pub sweep_member-Changed :
    (e e' : Env) (m : Member) (v : Verdict) (s : MemoryStore)
    → lookup m.id s.members ≡ some m
    → Changed s (sweep_member e e' m v s).1 (swept_member v (e.clock 0) m)
unfolding sweep_member
sweep_member-Changed e e' m keep s found = kept s m found
sweep_member-Changed e e' m (change status reason action payload) s found =
    audited-Changed e' action m.id payload s _
      (update_member e m.id (status_change status reason) s)
      (update_member-Changed e m status reason s found)

pub and_then-ok :
    (rest : MemoryStore → Result (Unit {0}) × MemoryStore) (r : Result (Unit {0}) × MemoryStore)
    → (and_then rest r).0 ≡ ok tt
    → and_then rest r ≡ rest r.1
unfolding and_then
and_then-ok rest (err x, s) h = cc
and_then-ok rest (ok tt, s) h = refl

pub id-swept : (v : Verdict) (t : Time) (m : Member) → (swept_member v t m).id ≡ m.id
id-swept keep t m = refl
id-swept (change status reason action payload) t m = refl

pub not_first : (x j : String) (xs : List String) → contains (x ∷ xs) j ≡ false → x == j ≡ false
unfolding contains
not_first x j xs h = ground arith

-- A round for one member leaves the members with other identifiers stored.
pub stored_later :
    (m : Member) (v : Verdict) (at : Time) (t u : MemoryStore)
    → Changed t u (swept_member v at m)
    → (ms : List Member) → contains (map (λ x. x.id) ms) m.id ≡ false
    → All (λ x. lookup x.id t.members ≡ some x) ms
    → All (λ x. lookup x.id u.members ≡ some x) ms
unfolding contains
stored_later m v at t u step [] h stored = tt
stored_later m v at t u step (x ∷ xs) h stored =
    let other : m.id == x.id ≡ false = ground (arith, eq_iff m.id x.id, eq_iff x.id m.id) in
    (
      step.members x.id ∙ rw (id-swept v at m, other) stored.0,
      stored_later m v at t u step xs (ground arith) stored.1,
    )
