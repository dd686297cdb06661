-- ===== src/Ldap/Member/Tree/Depth.antt =====
-- The depth of the tree of memberships is at most the number of members, without a cycle.
use pgfga.Base.{
  refl, ℕ, zero, suc, ◌<◌, ◌≤◌, ◌≡◌, true, false, leb, Bool, if◌then◌else◌, arith, Bool-cases, inl,
  inr, [], ◌∷◌, length, ◌=ℕ=◌, subst, sym,
}
use pgfga.GoMap.Laws.{AllEntries, AllEntries-mono}
use pgfga.Ldap.Member.Heap.{Heap, at}
use pgfga.Ldap.Member.Tree.Fuel.{IsRanked}

abbrev ltb : ℕ → ℕ → Bool
ltb a b = leb (suc a) b

-- how many of the first `n` addresses have a rank below `k`
unfoldable count_below : (ℕ → ℕ) → ℕ → ℕ → ℕ
count_below rank k zero = 0
count_below rank k (suc n) =
    let others = count_below rank k n in if ltb (rank n) k then suc others else others

count_below_mono : (rank : ℕ → ℕ) (j k n : ℕ) → j ≤ k → count_below rank j n ≤ count_below rank k n
unfolding count_below
count_below_mono rank j k zero h = omega arith
count_below_mono rank j k (suc n) h = ground (arith, count_below_mono rank j k n h)

count_below_last :
    (rank : ℕ → ℕ) (k n : ℕ)
    → rank n < k
    → count_below rank (rank n) (suc n) < count_below rank k (suc n)
unfolding count_below
count_below_last rank k n l = ground (arith, count_below_mono rank (rank n) k n (omega arith))

-- An address whose rank is below `k` counts for `k`, and not for its own rank.
count_below-strict :
    (rank : ℕ → ℕ) (a k n : ℕ)
    → a < n
    → rank a < k
    → count_below rank (rank a) n < count_below rank k n
unfolding count_below
count_below-strict rank a k zero h l = absurd (ground arith)
count_below-strict rank a k (suc n) h l = elim (Bool-cases (a =ℕ= n)) [
  | inl last ↦
      let same : n ≡ a = ground arith in
      subst (λ m. rank m < k → count_below rank (rank m) (suc n) < count_below rank k (suc n)) same
        (count_below_last rank k n) l
  | inr before ↦ ground (arith, count_below-strict rank a k n (ground arith) l)
]

count_below-bound : (rank : ℕ → ℕ) (k n : ℕ) → count_below rank k n ≤ n
unfolding count_below
count_below-bound rank k zero = omega arith
count_below-bound rank k (suc n) = ground (arith, count_below-bound rank k n)

count_below-bound_last : (rank : ℕ → ℕ) (n : ℕ) → count_below rank (rank n) (suc n) < suc n
unfolding count_below
count_below-bound_last rank n = ground (arith, count_below-bound rank (rank n) n)

count_below-bound_self : (rank : ℕ → ℕ) (a n : ℕ) → a < n → count_below rank (rank a) n < n
unfolding count_below
count_below-bound_self rank a zero h = absurd (ground arith)
count_below-bound_self rank a (suc n) h = elim (Bool-cases (a =ℕ= n)) [
  | inl last ↦
      let same : n ≡ a = ground arith in
      subst (λ m. count_below rank (rank m) (suc n) < suc n) same (count_below-bound_last rank n)
  | inr before ↦ ground (arith, count_below-bound_self rank a n (ground arith))
]

at_out_of_range :
    (heap : Heap) (a : ℕ) → leb (suc a) (length heap) ≡ false → (at heap a).children ≡ []
at_out_of_range [] a h = refl
at_out_of_range (m ∷ heap) zero h = absurd (ground arith)
at_out_of_range (m ∷ heap) (suc a) h = at_out_of_range heap a (ground arith)

-- A rank of each member below the number of members, and of no address behind them.
unfoldable pub depth : (ℕ → ℕ) → Heap → ℕ → ℕ
unfolding count_below
depth rank heap a = if ltb a (length heap) then suc (count_below rank (rank a) (length heap)) else 0

pub depth-bound : (rank : ℕ → ℕ) (heap : Heap) (a : ℕ) → depth rank heap a < suc (length heap)
unfolding depth
depth-bound rank heap a = ground (arith, count_below-bound_self rank a (length heap))

depth_child :
    (rank : ℕ → ℕ) (heap : Heap) (a child : ℕ)
    → ltb a (length heap) ≡ true
    → rank child < rank a
    → depth rank heap child < depth rank heap a
unfolding depth
depth_child rank heap a child h lower =
    ground (arith, count_below-strict rank child (rank a) (length heap))

pub depth-IsRanked :
    (rank : ℕ → ℕ) (heap : Heap) → IsRanked rank heap → IsRanked (depth rank heap) heap
depth-IsRanked rank heap ranked a = elim (Bool-cases (ltb a (length heap))) [
  | inl inside ↦
      AllEntries-mono _ _ _ (λ _ child lower. depth_child rank heap a child inside lower) (ranked a)
  | inr outside ↦ subst (AllEntries _) (sym (at_out_of_range heap a outside)) tt
]
