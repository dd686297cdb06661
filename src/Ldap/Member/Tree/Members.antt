-- ===== src/Ldap/Member/Tree/Members.antt =====
-- The tree of memberships holds exactly the members below the group.
use pgfga.Base.{
  ℕ, zero, suc, String, ◌≡◌, refl, Option, some, Option-cases, List, [], ◌∷◌, ◌++◌, All, All-append,
  All-mono, ◌⊎◌, inl, inr, subst,
}
use mathlib.Core.Option.{some-injective}
use pgfga.GoMap.{Map}
use pgfga.Ldap.Member.{Member}
use pgfga.Ldap.Member.Heap.{Heap, at}
use pgfga.Ldap.Member.Tree.{Membership, join_children, membership_tree}

-- The address stands in the map.
pub data Listed (a : ℕ) : Map ℕ → Type 0 where
  here : (name : String) (rest : Map ℕ) → Listed a ((name, a) ∷ rest)
  there : (name : String) (b : ℕ) {rest : Map ℕ} → Listed a rest → Listed a ((name, b) ∷ rest)

-- The address is that of a child, or of a child of a child, and so on.
pub data Below (heap : Heap) : Member → ℕ → Type 0 where
  child : (m : Member) (a : ℕ) → Listed a m.children → Below heap m a
  deeper : (m : Member) (a d : ℕ) → Listed a m.children → Below heap (at heap a) d → Below heap m d

-- One of the memberships is that of the member with this address.
abbrev pub InTree : ℕ → List Membership → Type 0
InTree d [] = ⊥
InTree d (ms ∷ mss) = (ms.member ≡ d) ⊎ InTree d mss

InTree-front : (d : ℕ) (xs ys : List Membership) → InTree d xs → InTree d (xs ++ ys)
InTree-front d [] ys h = absurd h
InTree-front d (x ∷ xs) ys (inl e) = inl e
InTree-front d (x ∷ xs) ys (inr h) = inr (InTree-front d xs ys h)

InTree-back : (d : ℕ) (xs ys : List Membership) → InTree d ys → InTree d (xs ++ ys)
InTree-back d [] ys h = h
InTree-back d (x ∷ xs) ys h = inr (InTree-back d xs ys h)

module _ (sub : Member → Option (List Membership)) (heap : Heap) (m : Member) where
  -- The parts of the tree below a list of children.
  join_children-cons :
      (name : String) (a : ℕ) (children : Map ℕ) (mss : List Membership)
      → join_children sub heap m ((name, a) ∷ children) ≡ some mss
      → (sub_mss : List Membership) × (rest : List Membership) × (sub (at heap a) ≡ some sub_mss)
        × (join_children sub heap m children ≡ some rest)
        × (record { member = a; member_of = m } ∷ (sub_mss ++ rest) ≡ mss)
  unfolding join_children
  join_children-cons name a children mss e = elim (Option-cases (sub (at heap a))) [
    | inl stuck ↦ absurd (cc (rw (join_children, stuck) at e))
    | inr (sub_mss, found) ↦ elim (Option-cases (join_children sub heap m children)) [
      | inl stuck ↦ absurd (cc (rw (join_children, found, stuck) at e))
      | inr (rest, others) ↦ (
        sub_mss,
        rest,
        found,
        others,
        some-injective _ _ (rw (join_children, found, others) at e),
      )
    ]
  ]

  join_children-All :
      (P : ℕ → Type 0) (children : Map ℕ) (mss : List Membership)
      → ((a : ℕ) → Listed a children → P a)
      → ((a : ℕ) (s : List Membership)
          → Listed a children
          → sub (at heap a) ≡ some s
          → All (λ ms. P ms.member) s)
      → join_children sub heap m children ≡ some mss
      → All (λ ms. P ms.member) mss
  unfolding join_children
  join_children-All P [] mss own below e = subst (All (λ ms. P ms.member)) (some-injective _ _ e) tt
  join_children-All P ((name, a) ∷ children) mss own below e =
      let (sub_mss, rest, found, others, whole) = join_children-cons name a children mss e in
      subst (All (λ ms. P ms.member)) whole (
        own a (here name children),
        All-append _ sub_mss rest (below a sub_mss (here name children) found) (
            join_children-All P children rest (λ b l. own b (there name a l))
              (λ b s l. below b s (there name a l)) others),
      )

  join_children-InTree :
      (a : ℕ) {children : Map ℕ} (mss : List Membership)
      → Listed a children
      → join_children sub heap m children ≡ some mss
      → InTree a mss
        × ((s : List Membership) × (sub (at heap a) ≡ some s)
            × ((d : ℕ) → InTree d s → InTree d mss))
  join_children-InTree a mss (here name children) e =
      let (sub_mss, rest, found, others, whole) = join_children-cons name a children mss e in
      (
        subst (InTree a) whole (inl refl),
        (sub_mss, found, λ d h. subst (InTree d) whole (inr (InTree-front d sub_mss rest h))),
      )
  join_children-InTree a mss (there name b {rest = children} l) e =
      let (sub_mss, rest, found, others, whole) = join_children-cons name b children mss e in
      let (own, (s, under, below)) = join_children-InTree a rest l others in
      (
        subst (InTree a) whole (inr (InTree-back a sub_mss rest own)),
        (s, under, λ d h. subst (InTree d) whole (inr (InTree-back d sub_mss rest (below d h)))),
      )

membership_tree-All :
    (fuel : ℕ) (heap : Heap) (m : Member) (mss : List Membership)
    → membership_tree fuel heap m ≡ some mss
    → All (λ ms. Below heap m ms.member) mss
unfolding membership_tree
membership_tree-All zero heap m mss e = absurd (cc)
membership_tree-All (suc fuel) heap m mss e =
    join_children-All _ heap m (Below heap m) m.children mss (child m)
      (λ a s l found.
        All-mono _ _ s (λ ms. deeper m a ms.member l)
          (membership_tree-All fuel heap (at heap a) s found))
      e

Below-InTree :
    (heap : Heap) {m : Member} {d : ℕ}
    → Below heap m d
    → (fuel : ℕ) (mss : List Membership) → membership_tree fuel heap m ≡ some mss
    → InTree d mss
unfolding membership_tree
Below-InTree heap (child m a l) zero mss e = absurd (cc)
Below-InTree heap (child m a l) (suc fuel) mss e = (join_children-InTree _ heap m a mss l e).0
Below-InTree heap (deeper m a d l b) zero mss e = absurd (cc)
Below-InTree heap (deeper m a d l b) (suc fuel) mss e =
    let (_, (s, found, below)) = join_children-InTree _ heap m a mss l e in
    below d (Below-InTree heap b fuel s found)

-- If the fuel is enough, the tree below a member holds exactly the members below it: each
-- membership is that of a child of the member, or of a child of a child, and so on, and each such
-- member has one.
pub membership_tree-Below :
    (fuel : ℕ) (heap : Heap) (m : Member) (mss : List Membership)
    → membership_tree fuel heap m ≡ some mss
    → All (λ ms. Below heap m ms.member) mss × ((d : ℕ) → Below heap m d → InTree d mss)
membership_tree-Below fuel heap m mss e =
    (membership_tree-All fuel heap m mss e, λ d b. Below-InTree heap b fuel mss e)
