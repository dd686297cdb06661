-- ===== src/Pg/Quote/RoundTrip.antt =====
-- What is quoted is read back whole, with nothing left over.
use Prim.Native.String.len
use Prim.Native.Char.{len_utf8}
use Prim.Native.String.{[], ◌∷◌, ◌++◌, len}
use text.Mathlib.TextEquality.{Char-path}
use text.Mathlib.TextLemmas.{nil-append, cons-append, append_assoc}
use pgfga.Base.{
  ℕ, ◌-◌, leb, true, ◌==◌, eq_refl, Char, code, String, ◌≡◌, refl, false, Option, some, ◌=ℕ=◌,
  arith, Bool-cases, inl, inr, ap, sym,
}
use pgfga.Text.{replace_all}
use pgfga.Text.Laws.{text_laws, two-append}
use pgfga.Pg.Quote.{identifier, quoted_sql_value, connect_string_value}
use pgfga.Pg.Quote.Lexing.Constant.{read_sql_value, ends_constant}
use pgfga.Pg.Quote.Constants.{constant-replace_all}
use pgfga.Pg.Quote.Lexing.{
  push, opening, doubled, escaped, truncated, named, read_identifier, read_connect_value, begins,
  holds,
}

quoted-append :
    (q : Char) (middle rest : String)
    → ((q ∷ []) ++ (middle ++ (q ∷ []))) ++ rest ≡ q ∷ (middle ++ (q ∷ rest))
quoted-append q middle rest = simp text_laws

opening_lem :
    (q : Char) (body : String → Option (String × String)) (s : String)
    → opening q body (q ∷ s) ≡ body s
unfolding opening
opening_lem q body s = ground arith

doubled_end :
    (q : Char) (rest : String) → begins q rest ≡ false → doubled q (q ∷ rest) ≡ some ([], rest)
unfolding doubled
doubled_end q [] h = ground arith
doubled_end q (c ∷ s) h = ground arith

doubled_twice : (q : Char) (s : String) → doubled q (q ∷ q ∷ s) ≡ push q (doubled q s)
unfolding doubled
doubled_twice q s = ground arith

doubled_plain :
    (q c : Char) (s : String)
    → (code c =ℕ= code q) ≡ false
    → doubled q (c ∷ s) ≡ push c (doubled q s)
unfolding doubled
doubled_plain q c [] h = ground arith
doubled_plain q c (d ∷ s) h = ground arith

-- Doubling a quote and reading doubled quotes cancel, whatever stands behind.
doubled-replace_all :
    (q : Char) (s rest : String)
    → begins q rest ≡ false
    → doubled q (replace_all s q (q ∷ q ∷ []) ++ (q ∷ rest)) ≡ some (s, rest)
unfolding replace_all
doubled-replace_all q [] rest h = simp nil-append (doubled_end q rest h)
doubled-replace_all q (c ∷ s) rest h = elim (Bool-cases (code c =ℕ= code q)) [
  | inl same ↦ rw same (
      simp (text_laws, doubled_twice, doubled-replace_all q s rest h)
        (ap (λ x. some (x ∷ s, rest)) (sym (Char-path c q (ground arith)))))
  | inr other ↦
      rw other (simp (cons-append, doubled_plain q c _ other, doubled-replace_all q s rest h))
]

truncated_short : (n : ℕ) (s : String) → leb (len s) n ≡ true → truncated n s ≡ s
unfolding truncated
truncated_short n [] h = refl
truncated_short n (c ∷ s) h = ground (arith, len.cons c s, truncated_short (n - len_utf8 c) s)

named_short :
    (name rest : String)
    → (name == "") ≡ false
    → leb (len name) 63 ≡ true
    → named (some (name, rest)) ≡ some (name, rest)
named_short [] rest some_name short = ground (arith, eq_refl "")
named_short (c ∷ s) rest some_name short =
    ap (λ x. some (x, rest)) (truncated_short 63 (c ∷ s) short)

-- A name that is not empty and has at most 63 bytes, quoted as an identifier, with a text behind it
-- that does not begin with a double quote, is read by PostgreSQL's lexical rules as exactly that
-- name, and that text is left over.
pub read_identifier-identifier :
    (name rest : String)
    → (name == "") ≡ false
    → leb (len name) 63 ≡ true
    → begins "\"" rest ≡ false
    → read_identifier (identifier name ++ rest) ≡ some (name, rest)
unfolding read_identifier identifier
read_identifier-identifier name rest some_name short h =
    rw (quoted-append "\"", opening_lem, doubled-replace_all "\"" name rest h)
      (named_short name rest some_name short)

-- A value that is quoted as a string constant, with a text behind it that, after white space,
-- begins neither with a single quote nor with a dash, is read by PostgreSQL's lexical rules as
-- exactly that value, and that text is left over.
pub read_sql_value-quoted_sql_value :
    (value rest : String)
    → ends_constant rest ≡ true
    → read_sql_value (quoted_sql_value value ++ rest) ≡ some (value, rest)
unfolding read_sql_value quoted_sql_value
read_sql_value-quoted_sql_value value rest h =
    rw (quoted-append "'") (constant-replace_all value rest h)

escaped_quote : (rest : String) → escaped ("'" ∷ rest) ≡ some ([], rest)
unfolding escaped
escaped_quote [] = refl
escaped_quote (c ∷ s) = refl

escaped_plain :
    (c : Char) (s : String)
    → (code c =ℕ= code "\\") ≡ false
    → (code c =ℕ= code "'") ≡ false
    → escaped (c ∷ s) ≡ push c (escaped s)
unfolding escaped
escaped_plain c [] h k = ground arith
escaped_plain c (d ∷ s) h k = ground arith

escaped_pair : (s : String) → escaped ("\\'" ++ s) ≡ push "'" (escaped s)
unfolding escaped
escaped_pair s = rw (two-append "\\" "'" s)

holds_cons :
    (q c : Char) (s : String)
    → holds q (c ∷ s) ≡ false
    → ((code c =ℕ= code q) ≡ false) × (holds q s ≡ false)
holds_cons q c s h = ground arith

escaped-replace_all :
    (s rest : String)
    → holds "\\" s ≡ false
    → escaped (replace_all s "'" "\\'" ++ ("'" ∷ rest)) ≡ some (s, rest)
unfolding replace_all
escaped-replace_all [] rest h = simp nil-append (escaped_quote rest)
escaped-replace_all (c ∷ s) rest h =
    let (plain, later) = holds_cons "\\" c s h in
    elim (Bool-cases (code c =ℕ= code "'")) [
      | inl same ↦ rw same (
          simp (append_assoc, escaped_pair, escaped-replace_all s rest later)
            (ap (λ x. some (x ∷ s, rest)) (sym (Char-path c "'" (ground arith)))))
      | inr other ↦
          rw other
            (simp (cons-append, escaped_plain c _ plain other, escaped-replace_all s rest later))
    ]

-- A value of a connection string that holds no backslash is read by the rules of connection strings
-- as exactly that value, and the text behind it is left over.
pub read_connect_value-connect_string_value :
    (value rest : String)
    → holds "\\" value ≡ false
    → read_connect_value (connect_string_value value ++ rest) ≡ some (value, rest)
unfolding read_connect_value connect_string_value
read_connect_value-connect_string_value value rest h =
    rw (quoted-append "'", opening_lem) (escaped-replace_all value rest h)
