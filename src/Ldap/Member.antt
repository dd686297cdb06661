-- ===== src/Ldap/Member.antt =====
-- pkg/ldap/member.go and membership.go: the graph of groups and users. A *Member is an address in
-- the heap; the maps of parents and children hold addresses.
pub mod Heap
pub mod Tree
use pgfga.Base.{
  String, Bool, not, Option, none, some, List, [], ◌∷◌, ◌&&◌, ◌==◌, ℕ, zero, get_elem?,
  if◌then◌else◌,
}
use pgfga.Base.Result.{Result, ok, err, failure, out_of_range, ◌>>=◌}
use pgfga.GoMap.{Map}
use pgfga.Text.{split}
use pgfga.Ldap.Dn.{
  MemberType, group_m_type, unknown_m_type, get_member_type, same_type, valid_dn, valid_ldap_pair,
}

pub record Member : Type 0 where
  pub dn : String
  pub pair : String
  pub name : String
  pub m_type : MemberType
  pub parents : Map ℕ
  pub children : Map ℕ

-- &Member{}, whose type is the first of the constants
abbrev pub zero_member : Member
zero_member = record {
  dn = "";
  pair = "";
  name = "";
  m_type = group_m_type;
  parents = [];
  children = [];
}

-- an index into a slice, which panics out of range
abbrev pub at_index : List String → ℕ → Result String
at_index parts i = elim (get_elem? parts i) [ none ↦ err out_of_range | some part ↦ ok part ]

-- whether a field is set already, and to something else
abbrev conflicts : String → String → Bool
conflicts old new = not (old == "") && not (old == new)

-- the branch of setFromID for a DN
set_dn : Member → String → Result Member
set_dn m id = do
  pair ← at_index (split id ",") 0
  if conflicts m.pair pair
      then err (failure "trying to set dn, while pair is already set differently")
      else do
        key ← at_index (split pair "=") 0
        name ← at_index (split pair "=") 1
        if conflicts m.name name
            then err (failure "trying to set dn, while name is already set differently")
            else ok (record m { dn = id; pair = pair; name = name; m_type = get_member_type key })

-- the branch of setFromID for a single pair
set_pair : Member → String → Result Member
set_pair m id = do
  key ← at_index (split id "=") 0
  name ← at_index (split id "=") 1
  if conflicts m.name name
      then err (failure "trying to set pair, while name is already set differently")
      else ok (record m { pair = id; name = name; m_type = get_member_type key })

-- the end of setFromID
set_name : Member → String → Result Member
set_name m id =
    if not (m.name == "") then ok m else ok (record m { name = id; m_type = unknown_m_type })

-- Member.setFromID
unfoldable pub set_from_id : Member → String → Result Member
unfolding set_dn set_pair set_name
set_from_id m id =
    if not (m.dn == "")
    then ok m
    else if valid_dn id
    then set_dn m id
    else if not (m.pair == "")
    then ok m
    else if valid_ldap_pair id
    then set_pair m id >>= (λ m'. set_name m' id)
    else set_name m id

-- newMember
unfoldable pub new_member : String → Result Member
unfolding set_from_id
new_member id = set_from_id zero_member id

-- Member.setMType
unfoldable pub set_m_type : Member → MemberType → Result Member
set_m_type m mt =
    if same_type mt unknown_m_type
    then ok m
    else if same_type mt m.m_type
    then ok m
    else if not (same_type m.m_type unknown_m_type)
    then err (failure "cannot set memberType when already set")
    else ok (record m { m_type = mt })
