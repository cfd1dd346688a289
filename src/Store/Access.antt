-- ===== src/Store/Access.antt =====
-- The invariant of the maps that decide who has access: every stored credential belongs to a grant
-- of its member on its node, and carries the UUID of a member that is stored.
pub mod Members
pub mod Grants
pub mod Config
use v2ray_platform.Base.{
  String, ◌≡◌, refl, Bool, true, false, ◌&&◌, List, [], ◌∷◌, ◌++◌, none, some, arith, ◌==◌, eq_iff,
  if◌then◌else◌, Bool-cases, inl, inr, All, Distinct, Distinct-append_one, contains, any_of,
}
use v2ray_platform.Maps.{Map, values, lookup, insert, delete_where, update_all, any_of-lookup}
use v2ray_platform.Domain.{Member, AccessGrant, NodeCredential}
use v2ray_platform.Store.State.{MemoryStore}
use v2ray_platform.Store.Rebuild.Entitlement.{direct_members}
use v2ray_platform.Store.Rebuild.Revision.{SameAccess}

pub record IsSound (grants : Map AccessGrant) (members : Map Member) (c : NodeCredential)
    : Type 0 where
  pub grant : AccessGrant
  pub granted : lookup c.access_grant_id grants ≡ some grant
  pub grant_node : grant.node_id ≡ c.node_id
  pub grant_member : grant.member_id ≡ c.member_id
  pub member : Member
  pub present : lookup c.member_id members ≡ some member
  pub same_uuid : c.uuid ≡ member.uuid

pub record IsConsistent (grants : Map AccessGrant) (credentials : Map NodeCredential)
    (members : Map Member) : Type 0 where
  pub sound : All (IsSound grants members) (values credentials)
  pub single : (n : String) → Distinct (direct_members n credentials)

-- The invariant of the store.
abbrev pub HasConsistentAccess : MemoryStore → Type 0
HasConsistentAccess s = IsConsistent s.grants s.credentials s.members

pub SameAccess-HasConsistentAccess :
    {s t : MemoryStore} → SameAccess s t → HasConsistentAccess s → HasConsistentAccess t
SameAccess-HasConsistentAccess h k = rw (h.grants, h.credentials, h.members) k

-- the members with credentials for a node, after the changes that the methods make
pub contains-direct_members-delete_where :
    (n : String) (p : NodeCredential → Bool) (m : Map NodeCredential) (a : String)
    → contains (direct_members n m) a ≡ false
    → contains (direct_members n (delete_where p m)) a ≡ false
unfolding direct_members delete_where contains
contains-direct_members-delete_where n p [] a h = h
contains-direct_members-delete_where n p ((k, c) ∷ m) a h =
    ground (arith, contains-direct_members-delete_where n p m a)

pub Distinct-direct_members-delete_where :
    (n : String) (p : NodeCredential → Bool) (m : Map NodeCredential)
    → Distinct (direct_members n m)
    → Distinct (direct_members n (delete_where p m))
unfolding direct_members delete_where
Distinct-direct_members-delete_where n p [] d = d
Distinct-direct_members-delete_where n p ((k, c) ∷ m) d = elim (Bool-cases (c.node_id == n)) [
  | inl here ↦ elim (Bool-cases (p c)) [
    | inl gone ↦ rw gone (Distinct-direct_members-delete_where n p m (rw here at d).1)
    | inr stays ↦
        rw (stays, here)
          (
            contains-direct_members-delete_where n p m c.member_id (rw here at d).0,
            Distinct-direct_members-delete_where n p m (rw here at d).1,
          )
  ]
  | inr other ↦ elim (Bool-cases (p c)) [
    | inl gone ↦ rw gone (Distinct-direct_members-delete_where n p m (rw other at d))
    | inr stays ↦ rw (stays, other) (Distinct-direct_members-delete_where n p m (rw other at d))
  ]
]

pub direct_members-insert_new :
    (n k : String) (c : NodeCredential) (m : Map NodeCredential)
    → lookup k m ≡ none
    → direct_members n (insert k c m)
      ≡ (if c.node_id == n then direct_members n m ++ c.member_id ∷ [] else direct_members n m)
unfolding direct_members insert lookup
direct_members-insert_new n k c [] h = refl
direct_members-insert_new n k c ((i, w) ∷ m) h = ground (arith, direct_members-insert_new n k c m)

-- A member with a credential for a node has a grant on it.
pub direct_members-granted :
    (grants : Map AccessGrant) (members : Map Member) (n a : String) (m : Map NodeCredential)
    → All (IsSound grants members) (values m)
    → contains (direct_members n m) a ≡ true
    → any_of (λ g. g.node_id == n && g.member_id == a) (values grants) ≡ true
unfolding direct_members contains
direct_members-granted grants members n a [] h k = cc
direct_members-granted grants members n a ((i, c) ∷ m) h k =
    elim (Bool-cases (c.node_id == n && c.member_id == a)) [
      | inl hit ↦
          any_of-lookup (λ g. g.node_id == n && g.member_id == a) c.access_grant_id h.0.grant grants
            h.0.granted (rw (h.0.grant_node, h.0.grant_member) hit)
      | inr miss ↦ direct_members-granted grants members n a m h.1 (ground arith)
    ]
