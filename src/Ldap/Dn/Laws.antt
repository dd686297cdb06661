-- ===== src/Ldap/Dn/Laws.antt =====
-- How the two regular expressions relate.
use Prim.Native.String.{[], ◌∷◌}
use pgfga.Base.{Bool-cases, Char, String, ◌≡◌, refl, Bool, true, false, inl, inr, ◌⊎◌}
use pgfga.Ldap.Dn.{
  is_alphanumeric, Mode, key_start, in_key, value_start, in_value, mismatch, next_mode, scan,
  valid_dn, valid_ldap_pair,
}

mismatch-scan : (many : Bool) (s : String) → scan many mismatch s ≡ false
unfolding scan
mismatch-scan many [] = refl
mismatch-scan many (c ∷ s) = mismatch-scan many s

-- Without a comma the two matchers go through the same states.
next_mode_agrees :
    (mode : Mode) (c : Char)
    → (next_mode false mode c ≡ mismatch) ⊎ (next_mode true mode c ≡ next_mode false mode c)
unfolding next_mode
next_mode_agrees key_start c = inr refl
next_mode_agrees in_key c = inr refl
next_mode_agrees value_start c = inr refl
next_mode_agrees in_value c = elim (Bool-cases (is_alphanumeric c)) [
  | inl on ↦ rw on (inr refl)
  | inr off ↦ rw off (inl refl)
]
next_mode_agrees mismatch c = inr refl

scan_many : (mode : Mode) (s : String) → scan false mode s ≡ true → scan true mode s ≡ true
unfolding scan
scan_many mode [] h = h
scan_many mode (c ∷ s) h = elim (next_mode_agrees mode c) [
  | inl stuck ↦ cc (mismatch-scan false s, rw stuck at h)
  | inr same ↦ rw same (scan_many (next_mode false mode c) s h)
]

-- A text that validLDAPPair accepts is accepted by validDN too.
pub valid_ldap_pair-valid_dn : (s : String) → valid_ldap_pair s ≡ true → valid_dn s ≡ true
unfolding valid_ldap_pair valid_dn
valid_ldap_pair-valid_dn s = scan_many key_start s
