-- ===== src/Ldap/Member/Heap.antt =====
-- The heap of members, and the functions of pkg/ldap/member.go that follow pointers.
use pgfga.Base.{
  ℕ, String, Bool, true, false, Option, none, some, List, [], ◌∷◌, ◌++◌, ◌==◌, length, get_elem?,
  set, if◌then◌else◌,
}
use pgfga.Base.Result
use pgfga.Base.Result.{Error, Result, ok, err, out_of_range}
use pgfga.GoMap.{Map, lookup, put, contains}
use pgfga.Ldap.Dn.{MemberType}
use pgfga.Ldap.Member.{Member, zero_member, new_member, set_m_type}

-- The members that were allocated; an address is a position.
abbrev pub Heap : Type 0
Heap = List Member

-- Members: pointers, under the names, the pairs and the DNs of the members
abbrev pub Members : Type 0
Members = Map ℕ

abbrev pub or_zero_member : Option Member → Member
or_zero_member none = zero_member
or_zero_member (some m) = m

-- the member that a pointer points to
abbrev pub at : Heap → ℕ → Member
at heap a = or_zero_member (get_elem? heap a)

-- What the methods work on.
pub record Graph : Type 0 where
  pub heap : Heap
  pub members : Members

abbrev new_entry : Graph → Bool → Member → Option ℕ → Graph × ℕ
new_entry g missing m (some a) = (g, a)
new_entry g false m none = (record g { heap = g.heap ++ zero_member ∷ [] }, length g.heap)
new_entry g true m none =
    let a = length g.heap in
    (
      record {
        heap = g.heap ++ m ∷ [];
        members = put m.dn a (put m.pair a (put m.name a g.members));
      },
      a,
    )

-- Members.GetByID; a member that is found or not asked for leaves its newly made copy behind,
-- which no one points to and which is left out here
unfoldable pub get_by_id : Graph → String → Bool → Result (Graph × ℕ)
get_by_id g id add_when_missing =
    Result.◌>>=◌ (new_member id) λ m. ok (new_entry g add_when_missing m (lookup m.name g.members))

-- Member.addParent, on the pointers m and p
unfoldable pub add_parent : Heap → ℕ → ℕ → Heap
add_parent heap m p =
    let member = at heap m in
    let parent = at heap p in
    if member.dn == parent.dn
    then heap
    else if contains parent.name member.parents
    then heap
    else let heap' = set heap m (record member { parents = put parent.name p member.parents }) in
      set heap' p (record (at heap' p) { children = put member.name m parent.children })

-- Member.setMType, through a pointer
unfoldable pub set_type_at : Heap → ℕ → MemberType → Result Heap
set_type_at heap a mt = Result.◌>>=◌ (set_m_type (at heap a) mt) λ m. ok (set heap a m)
