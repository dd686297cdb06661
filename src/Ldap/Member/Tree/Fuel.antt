-- ===== src/Ldap/Member/Tree/Fuel.antt =====
-- Fuel enough for the tree of memberships.
use pgfga.Base.{ℕ, zero, suc, ◌<◌, ◌≡◌, refl, Option, some, List, [], ◌∷◌, ◌++◌, arith}
use pgfga.GoMap.{Map}
use pgfga.GoMap.Laws.{AllEntries, AllEntries-mono}
use pgfga.Ldap.Member.{Member}
use pgfga.Ldap.Member.Heap.{Heap, at}
use pgfga.Ldap.Member.Tree.{Membership, join_children, membership_tree}

-- The children of every member of the heap have a lower rank: there is no cycle.
abbrev pub IsRanked : (ℕ → ℕ) → Heap → Type 0
IsRanked rank heap = (a : ℕ) → AllEntries (λ _ child. rank child < rank a) (at heap a).children

abbrev Done : Option (List Membership) → Type 0
Done r = (mss : List Membership) × (r ≡ some mss)

join_children-Done :
    (sub : Member → Option (List Membership)) (heap : Heap) (m : Member) (children : Map ℕ)
    → AllEntries (λ _ child. Done (sub (at heap child))) children
    → Done (join_children sub heap m children)
unfolding join_children
join_children-Done sub heap m [] h = ([], refl)
join_children-Done sub heap m ((name, child) ∷ children) h =
    let (sub_mss, e) = h.0 in
    let (mss, es) = join_children-Done sub heap m children h.1 in
    (record { member = child; member_of = m } ∷ (sub_mss ++ mss), rw (join_children, e, es) refl)

-- If the children of every member have a lower rank than the member, the tree below a member is
-- found with any fuel above the rank of the member.
pub membership_tree-Done :
    (rank : ℕ → ℕ) (heap : Heap)
    → IsRanked rank heap
    → (fuel : ℕ) (a : ℕ) → rank a < fuel
    → (mss : List Membership) × (membership_tree fuel heap (at heap a) ≡ some mss)
unfolding membership_tree
membership_tree-Done rank heap ranked zero a h = absurd (ground arith)
membership_tree-Done rank heap ranked (suc fuel) a h =
    join_children-Done _ heap (at heap a) (at heap a).children (
      AllEntries-mono _ _ _
        (λ _ child lower. membership_tree-Done rank heap ranked fuel child (omega arith))
        (ranked a))
