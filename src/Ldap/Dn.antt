-- ===== src/Ldap/Dn.antt =====
-- pkg/ldap/utils.go and member_type.go: which texts are distinguished names.
pub mod Laws
use Prim.Native.String.{[], ◌∷◌}
use pgfga.Base.{
  ℕ, Char, code, String, Bool, true, false, ◌&&◌, ◌||◌, ◌==◌, leb, ◌=ℕ=◌, if◌then◌else◌,
}

-- [a-zA-Z]
abbrev pub is_letter : Char → Bool
is_letter c = let n = code c in (leb b'a' n && leb n b'z') || (leb b'A' n && leb n b'Z')

-- [a-zA-Z0-9]
abbrev pub is_alphanumeric : Char → Bool
is_alphanumeric c = is_letter c || (leb b'0' (code c) && leb (code c) b'9')

-- The state of the matcher of the two regular expressions: what was read last.
pub data Mode : Type 0 where
  key_start in_key value_start in_value mismatch : Mode

-- One character further. After a whole pair a comma begins the next one, if `many` are allowed.
unfoldable pub next_mode : Bool → Mode → Char → Mode
next_mode many key_start c = if is_letter c then in_key else mismatch
next_mode many in_key c =
    if is_letter c then in_key else if code c =ℕ= b'=' then value_start else mismatch
next_mode many value_start c = if is_alphanumeric c then in_value else mismatch
next_mode many in_value c =
    if is_alphanumeric c then in_value else if many && code c =ℕ= b',' then key_start else mismatch
next_mode many mismatch c = mismatch

unfoldable pub accepts : Mode → Bool
accepts in_value = true
accepts _ = false

unfoldable pub scan : Bool → Mode → String → Bool
unfolding next_mode accepts
scan many mode [] = accepts mode
scan many mode (c ∷ s) = scan many (next_mode many mode c) s

-- validDN: ^([a-zA-Z]+=[a-zA-Z0-9]+,)*[a-zA-Z]+=[a-zA-Z0-9]+$
unfoldable pub valid_dn : String → Bool
unfolding scan
valid_dn dn = scan true key_start dn

-- validLDAPPair: ^[a-zA-Z]+=[a-zA-Z0-9]+$
unfoldable pub valid_ldap_pair : String → Bool
unfolding scan
valid_ldap_pair pair = scan false key_start pair

-- memberType
pub data MemberType : Type 0 where
  group_m_type user_m_type unknown_m_type : MemberType

-- getmemberType
unfoldable pub get_member_type : String → MemberType
get_member_type attribute =
    if attribute == "cn"
    then group_m_type
    else if attribute == "uid"
    then user_m_type
    else unknown_m_type

-- mt == nt
abbrev pub same_type : MemberType → MemberType → Bool
same_type group_m_type group_m_type = true
same_type user_m_type user_m_type = true
same_type unknown_m_type unknown_m_type = true
same_type _ _ = false
