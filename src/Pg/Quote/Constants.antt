-- ===== src/Pg/Quote/Constants.antt =====
-- How the reader of string constants goes over a text whose quotes are doubled.
use text.Mathlib.TextEquality.{Char-path}
use text.Mathlib.TextLemmas.{nil-append, cons-append, append_assoc}
use Prim.Native.String.{[], ◌∷◌, ◌++◌}
use pgfga.Base.{
  Bool, Char, String, ◌≡◌, refl, true, false, some, arith, Bool-cases, inl, inr, ap, sym,
}
use pgfga.Text.{replace_all}
use pgfga.Text.Laws.{two-append}
use pgfga.Pg.Quote.Lexing.{push}
use pgfga.Pg.Quote.Lexing.Constant.{inside, closed, is_quote, move, constant, ends_constant}

-- Behind the last quote only white space is read, and that is left over too.
constant_closed :
    (s rest : String) (directly newline : Bool)
    → ends_constant s ≡ true
    → constant s (closed directly newline rest) ≡ some ([], rest)
unfolding constant move ends_constant
constant_closed [] rest directly newline h = refl
constant_closed (c ∷ s) rest directly newline h =
    ground (arith, constant_closed s rest false true, constant_closed s rest false newline)

constant_end :
    (rest : String) → ends_constant rest ≡ true → constant ("'" ∷ rest) inside ≡ some ([], rest)
unfolding constant move
constant_end rest h = constant_closed rest rest true false h

constant_twice : (s : String) → constant ("''" ++ s) inside ≡ push "'" (constant s inside)
unfolding constant move
constant_twice s = rw (two-append "'" "'" s)

constant_plain :
    (c : Char) (s : String)
    → is_quote c ≡ false
    → constant (c ∷ s) inside ≡ push c (constant s inside)
unfolding constant move
constant_plain c s h = ground arith

pub constant-replace_all :
    (s rest : String)
    → ends_constant rest ≡ true
    → constant (replace_all s "'" "''" ++ ("'" ∷ rest)) inside ≡ some (s, rest)
unfolding replace_all
constant-replace_all [] rest h = simp nil-append (constant_end rest h)
constant-replace_all (c ∷ s) rest h = elim (Bool-cases (is_quote c)) [
  | inl same ↦ rw same (
      simp (append_assoc, constant_twice, constant-replace_all s rest h)
        (ap (λ x. some (x ∷ s, rest)) (sym (Char-path c "'" (ground arith)))))
  | inr other ↦
      rw other (simp (cons-append, constant_plain c _ other, constant-replace_all s rest h))
]
