-- ===== src/Text/Laws.antt =====
-- Laws of the text functions.
use text.Mathlib.TextLemmas.{nil-append, cons-append, append_assoc}
use Prim.Native.String.{[], ◌∷◌, ◌++◌}
use pgfga.Base.{Char, String, ◌≡◌}

pub ruleset text_laws = (nil-append, cons-append, append_assoc)

-- A text of two characters in front, as a literal reads.
pub two-append : (c d : Char) (s : String) → (c ∷ d ∷ []) ++ s ≡ c ∷ d ∷ s
two-append c d s = simp text_laws
