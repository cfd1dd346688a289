-- ===== src/Store/Pending/Delivery.antt =====
-- The queues of removals and additions: each entry is delivered once, to the agent of its node.
use v2ray_platform.Base.{
  ℕ, suc, String, ◌≡◌, ◌≢◌, refl, Bool, true, false, not, List, [], ◌∷◌, ◌++◌, map, arith, ◌==◌,
  eq_iff, if◌then◌else◌, Bool-cases, inl, inr,
}
use mathlib.Core.List.{append-nil, append_assoc, map-append}
use v2ray_platform.Base.Result.{ok}
use v2ray_platform.Domain.{PendingUserRemoval, PendingUserAddition}
use v2ray_platform.Store.State.{MemoryStore, Env}
use v2ray_platform.Store.Pending.{
  completed_removal, add_removals, add_pending_user_removals, split_removals,
  get_and_clear_pending_removals, split_additions, get_and_clear_pending_additions,
}

-- The elements that pass a test, in their order.
unfoldable pub select {ℓ} : {A : Type ℓ} → (A → Bool) → List A → List A
select p [] = []
select p (x ∷ xs) = if p x then x ∷ select p xs else select p xs

module _ {ℓ} {A : Type ℓ} where
  select-append : (p : A → Bool) (xs ys : List A) → select p (xs ++ ys) ≡ select p xs ++ select p ys
  unfolding select
  select-append p [] ys = refl
  select-append p (x ∷ xs) ys = ground (arith, select-append p xs ys)

  -- What one test takes out of the elements that fail another test, when nothing passes both.
  pub select-rest :
      (p q : A → Bool) (xs : List A)
      → ((x : A) → p x ≡ true → q x ≡ false)
      → select p (select (λ x. not (q x)) xs) ≡ select p xs
  unfolding select
  select-rest p q [] h = refl
  select-rest p q (x ∷ xs) h = ground (arith, h x, select-rest p q xs h)

  pub select-none : (p : A → Bool) (xs : List A) → select p (select (λ x. not (p x)) xs) ≡ []
  unfolding select
  select-none p [] = refl
  select-none p (x ∷ xs) = ground (arith, select-none p xs)

-- the entries of a queue for one node
abbrev pub removals_for : String → MemoryStore → List PendingUserRemoval
removals_for node_id s = select (λ r. r.node_id == node_id) s.pending_removals

abbrev pub additions_for : String → MemoryStore → List PendingUserAddition
additions_for node_id s = select (λ r. r.node_id == node_id) s.pending_additions

pub split_removals-select :
    (node_id : String) (xs out rest : List PendingUserRemoval)
    → split_removals node_id xs out rest ≡ (
      out ++ select (λ r. r.node_id == node_id) xs,
      rest ++ select (λ r. not (r.node_id == node_id)) xs,
    )
unfolding split_removals select
split_removals-select n [] out rest = rw (append-nil out, append-nil rest)
split_removals-select n (x ∷ xs) out rest = elim (Bool-cases (x.node_id == n)) [
  | inl e ↦ rw (e, split_removals-select n xs (out ++ x ∷ []) rest, append_assoc)
  | inr e ↦ rw (e, split_removals-select n xs out (rest ++ x ∷ []), append_assoc)
]

pub split_additions-select :
    (node_id : String) (xs out rest : List PendingUserAddition)
    → split_additions node_id xs out rest ≡ (
      out ++ select (λ r. r.node_id == node_id) xs,
      rest ++ select (λ r. not (r.node_id == node_id)) xs,
    )
unfolding split_additions select
split_additions-select n [] out rest = rw (append-nil out, append-nil rest)
split_additions-select n (x ∷ xs) out rest = elim (Bool-cases (x.node_id == n)) [
  | inl e ↦ rw (e, split_additions-select n xs (out ++ x ∷ []) rest, append_assoc)
  | inr e ↦ rw (e, split_additions-select n xs out (rest ++ x ∷ []), append_assoc)
]

-- An agent that fetches the removals of its node gets exactly those that wait for it, in the order
-- of the queue; none of them waits any more, and those of every other node still wait.
pub get_and_clear_pending_removals-delivery :
    (node_id other : String) (s : MemoryStore)
    → other ≢ node_id
    → ((get_and_clear_pending_removals node_id s).0 ≡ ok (removals_for node_id s))
      × (removals_for node_id (get_and_clear_pending_removals node_id s).1 ≡ [])
      × (removals_for other (get_and_clear_pending_removals node_id s).1 ≡ removals_for other s)
unfolding get_and_clear_pending_removals
get_and_clear_pending_removals-delivery n other s h =
    rw (split_removals-select n s.pending_removals [] []) (
      refl,
      select-none (λ r. r.node_id == n) s.pending_removals,
      select-rest (λ r. r.node_id == other) (λ r. r.node_id == n) s.pending_removals
          (λ r e. ground (arith, eq_iff r.node_id other, eq_iff r.node_id n)),
    )

-- An agent that fetches the additions of its node gets exactly those that wait for it, in order; none
-- of them waits any more, and those of every other node still wait.
pub get_and_clear_pending_additions-delivery :
    (node_id other : String) (s : MemoryStore)
    → other ≢ node_id
    → ((get_and_clear_pending_additions node_id s).0 ≡ ok (additions_for node_id s))
      × (additions_for node_id (get_and_clear_pending_additions node_id s).1 ≡ [])
      × (additions_for other (get_and_clear_pending_additions node_id s).1 ≡ additions_for other s)
unfolding get_and_clear_pending_additions
get_and_clear_pending_additions-delivery n other s h =
    rw (split_additions-select n s.pending_additions [] []) (
      refl,
      select-none (λ r. r.node_id == n) s.pending_additions,
      select-rest (λ r. r.node_id == other) (λ r. r.node_id == n) s.pending_additions
          (λ r e. ground (arith, eq_iff r.node_id other, eq_iff r.node_id n)),
    )

-- the user that a removal names
abbrev pub removed_user : PendingUserRemoval → String × String
removed_user r = (r.member_uuid, r.member_email)

select-completed :
    (node_id : String) (e : Env) (i : ℕ) (xs : List PendingUserRemoval) (s : MemoryStore)
    → map removed_user (removals_for node_id (add_removals e i xs s))
      ≡ map removed_user (removals_for node_id s)
        ++ map removed_user (select (λ r. r.node_id == node_id) xs)
unfolding add_removals completed_removal select
select-completed n e i [] s = rw (append-nil (map removed_user (removals_for n s)))
select-completed n e i (x ∷ xs) s =
    rw
      (
        select-completed n e (suc (suc i)) xs (record s {
          pending_removals =
              s.pending_removals ++ completed_removal (e.clock i) (e.clock (suc i)) x ∷ [];
        }),
        select-append,
      )
      (elim (Bool-cases (x.node_id == n)) [
        | inl hit ↦ rw (hit, map-append removed_user (removals_for n s), append_assoc)
        | inr miss ↦ rw (miss, append-nil (removals_for n s))
      ])

-- The users that an agent is told to remove are those that waited for its node and then those that
-- were queued for it, in the order of the calls.
pub add_pending_user_removals-queue :
    (node_id : String) (e : Env) (xs : List PendingUserRemoval) (s : MemoryStore)
    → map removed_user (removals_for node_id (add_pending_user_removals e xs s).1)
      ≡ map removed_user (removals_for node_id s)
        ++ map removed_user (select (λ r. r.node_id == node_id) xs)
unfolding add_pending_user_removals
add_pending_user_removals-queue n e xs s = select-completed n e 0 xs s
