-- ===== src/Ldap/Member/Tree.antt =====
-- Member.MembershipTree of pkg/ldap/member.go, and membership.go.
pub mod Fuel
pub mod Members
pub mod Depth
use pgfga.Base.{ℕ, zero, suc, String, Option, none, some, List, [], ◌∷◌, ◌++◌}
use pgfga.GoMap.{Map}
use pgfga.Ldap.Member.{Member}
use pgfga.Ldap.Member.Heap.{Heap, at}

-- Membership: pointers to the member and to a copy of the group
pub record Membership : Type 0 where
  pub member : ℕ
  pub member_of : Member

-- Membership.GetMember
unfoldable pub get_member : Heap → Membership → Member
get_member heap ms = at heap ms.member

-- The subtrees of the children, joined; `sub` gives the tree of a child.
unfoldable pub join_children :
    (Member → Option (List Membership)) → Heap → Member → Map ℕ → Option (List Membership)
join_children sub heap m [] = some []
join_children sub heap m ((_, child) ∷ children) = elim (sub (at heap child)) [
  | none ↦ none
  | some sub_mss ↦ elim (join_children sub heap m children) [
    | none ↦ none
    | some mss ↦ some (record { member = child; member_of = m } ∷ (sub_mss ++ mss))
  ]
]

-- Member.MembershipTree, with fuel: none means that the depth of the calls passed it. Go has no
-- such bound, and overflows its stack on a cycle.
unfoldable pub membership_tree : ℕ → Heap → Member → Option (List Membership)
membership_tree zero heap m = none
membership_tree (suc fuel) heap m = join_children (membership_tree fuel heap) heap m m.children
