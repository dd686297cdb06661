-- ===== src/Pg/Quote/Lexing.antt =====
-- How the receivers read quoted text: the lexical rules of PostgreSQL's SQL (sections 4.1.1, 4.1.2.1
-- and 4.1.5 of its manual, with standard_conforming_strings on) and of its connection strings
-- (section 34.1.1.1). These are independent descriptions, against which the quoting is checked.
pub mod Constant
use Prim.Native.Char.{len_utf8}
use Prim.Native.String.{[], ◌∷◌}
use pgfga.Base.{
  ℕ, ◌-◌, leb, Char, code, String, Bool, true, false, Option, none, some, if◌then◌else◌, ◌=ℕ=◌,
}

abbrev pub push : Char → Option (String × String) → Option (String × String)
push c none = none
push c (some (s, rest)) = some (c ∷ s, rest)

-- The text up to the closing quote `q`, where `q` written twice stands for itself, and the rest.
unfoldable pub doubled : Char → String → Option (String × String)
doubled q [] = none
doubled q (c ∷ []) = if code c =ℕ= code q then some ([], []) else none
doubled q (c ∷ d ∷ s) =
    let twice = doubled q s in
    let plain = doubled q (d ∷ s) in
    if code c =ℕ= code q
    then (if code d =ℕ= code q then push q twice else some ([], d ∷ s))
    else push c plain

-- The text up to the closing `'`, where a backslash stands for the character behind it.
unfoldable pub escaped : String → Option (String × String)
escaped [] = none
escaped (c ∷ []) = if code c =ℕ= code "'" then some ([], []) else none
escaped (c ∷ d ∷ s) =
    let behind = escaped s in
    let plain = escaped (d ∷ s) in
    if code c =ℕ= code "\\"
    then push d behind
    else if code c =ℕ= code "'"
    then some ([], d ∷ s)
    else push c plain

-- the opening quote, and what `body` reads behind it
unfoldable pub opening :
    Char → (String → Option (String × String)) → String → Option (String × String)
opening q body [] = none
opening q body (c ∷ s) = if code c =ℕ= code q then body s else none

-- The longest beginning of the text that has at most `n` bytes.
unfoldable pub truncated : ℕ → String → String
truncated n [] = []
truncated n (c ∷ s) = if leb (len_utf8 c) n then c ∷ truncated (n - len_utf8 c) s else []

-- A delimited identifier that is empty is an error, and of a longer one 63 bytes are the name.
abbrev pub named : Option (String × String) → Option (String × String)
named none = none
named (some ([], rest)) = none
named (some (c ∷ s, rest)) = some (truncated 63 (c ∷ s), rest)

unfoldable pub read_identifier : String → Option (String × String)
unfolding opening doubled truncated
read_identifier s = named (opening "\"" (doubled "\"") s)

unfoldable pub read_connect_value : String → Option (String × String)
read_connect_value = opening "'" escaped

-- whether the text begins with the character
abbrev pub begins : Char → String → Bool
begins q [] = false
begins q (c ∷ s) = code c =ℕ= code q

-- whether the character stands in the text
abbrev pub holds : Char → String → Bool
holds q [] = false
holds q (c ∷ s) = if code c =ℕ= code q then true else holds q s
