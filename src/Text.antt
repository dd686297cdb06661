-- ===== src/Text.antt =====
-- The functions of Go's packages strings and fmt that the program calls, on the native texts.
-- Go's strings are bytes; the separators and prefixes of the program are ASCII, so walking the
-- characters of the UTF-8 text finds the same places.
pub mod Laws
use Prim.Native.String.{[], ◌∷◌, ◌++◌}
use mathlib.Core.List.{List}
use mathlib.Core.List
use pgfga.Base.{ℕ, Char, code, String, Bool, true, false, if◌then◌else◌, ◌=ℕ=◌}

-- strings.HasPrefix
unfoldable pub has_prefix : String → String → Bool
has_prefix s [] = true
has_prefix [] (p ∷ ps) = false
has_prefix (c ∷ s) (p ∷ ps) = if code c =ℕ= code p then has_prefix s ps else false

-- strings.CutPrefix: the rest with true, or the whole text with false
unfoldable pub drop_prefix : String → String → String
drop_prefix s [] = s
drop_prefix [] (p ∷ ps) = []
drop_prefix (c ∷ s) (p ∷ ps) = drop_prefix s ps

unfoldable pub cut_prefix : String → String → String × Bool
unfolding has_prefix drop_prefix
cut_prefix s p = if has_prefix s p then (drop_prefix s p, true) else (s, false)

-- strings.ReplaceAll(s, old, new), for an `old` of one character
unfoldable pub replace_all : String → Char → String → String
replace_all [] old new = []
replace_all (c ∷ s) old new =
    let rest = replace_all s old new in if code c =ℕ= code old then new ++ rest else c ∷ rest

-- strings.ToLower, on ASCII; no other character has one of the program's keywords as a lower case
lower_from : Char → String → String → Char
lower_from c (u ∷ us) (l ∷ ls) = if code c =ℕ= code u then l else lower_from c us ls
lower_from c _ _ = c

unfoldable pub to_lower : String → String
unfolding lower_from
to_lower [] = []
to_lower (c ∷ s) =
    lower_from c "ABCDEFGHIJKLMNOPQRSTUVWXYZ" "abcdefghijklmnopqrstuvwxyz" ∷ to_lower s

-- strings.Join
unfoldable pub join : List String → String → String
join List.[] sep = []
join (List.◌∷◌ s List.[]) sep = s
join (List.◌∷◌ s (List.◌∷◌ t ts)) sep = s ++ (sep ++ join (List.◌∷◌ t ts) sep)

abbrev grow : Char → List String → List String
grow c List.[] = List.◌∷◌ (c ∷ []) List.[]
grow c (List.◌∷◌ part parts) = List.◌∷◌ (c ∷ part) parts

-- strings.Split, for a separator of one character
unfoldable pub split : String → Char → List String
split [] sep = List.◌∷◌ [] List.[]
split (c ∷ s) sep =
    let rest = split s sep in if code c =ℕ= code sep then List.◌∷◌ [] rest else grow c rest
