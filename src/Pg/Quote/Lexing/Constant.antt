-- ===== src/Pg/Quote/Lexing/Constant.antt =====
-- How PostgreSQL reads a string constant. Constants that only white space with a line break divides
-- are one constant; a comment to the end of the line counts as white space.
use Prim.Native.String.{[], ◌∷◌}
use pgfga.Base.{
  Char, code, String, Bool, true, false, not, ◌||◌, Option, none, some, if◌then◌else◌, ◌=ℕ=◌,
}
use pgfga.Pg.Quote.Lexing.{push}

pub data Mode : Type 0 where
  -- between the quotes
  inside : Mode
  -- behind a quote: whether directly so, whether a line ended since, and the text behind the quote
  closed : Bool → Bool → String → Mode
  -- behind a dash that may begin a comment
  dashed : Bool → String → Mode
  commented : String → Mode

-- What one character does: the constant has ended, or reading goes on, with a character of it or not.
pub data Move : Type 0 where
  ends : String → Move
  goes : Mode → Move
  reads : Char → Mode → Move

abbrev pub is_quote : Char → Bool
is_quote c = code c =ℕ= code "'"

abbrev pub is_newline : Char → Bool
is_newline c = code c =ℕ= b'\n' || code c =ℕ= b'\r'

-- a space, a tab, a vertical tab or a form feed
abbrev pub is_blank : Char → Bool
is_blank c = code c =ℕ= b' ' || (code c =ℕ= b'\t' || (code c =ℕ= 11 || code c =ℕ= 12))

abbrev pub is_dash : Char → Bool
is_dash c = code c =ℕ= b'-'

-- a quote behind a quote
abbrev pub quoted_again : Char → Bool → Bool → String → Move
quoted_again c directly newline rest =
    if directly then reads c inside else if newline then goes inside else ends rest

unfoldable pub move : Mode → Char → String → Move
move inside c s = if is_quote c then goes (closed true false s) else reads c inside
move (closed directly newline rest) c s =
    if is_quote c
    then quoted_again c directly newline rest
    else if is_newline c
    then goes (closed false true rest)
    else if is_blank c
    then goes (closed false newline rest)
    else if is_dash c
    then goes (dashed newline rest)
    else ends rest
move (dashed newline rest) c s = if is_dash c then goes (commented rest) else ends rest
move (commented rest) c s =
    if is_newline c then goes (closed false true rest) else goes (commented rest)

abbrev pub at_end : Mode → Option (String × String)
at_end inside = none
at_end (closed directly newline rest) = some ([], rest)
at_end (dashed newline rest) = some ([], rest)
at_end (commented rest) = some ([], rest)

-- the value of the constant, and the text behind its last quote
unfoldable pub constant : String → Mode → Option (String × String)
unfolding move
constant [] m = at_end m
constant (c ∷ s) m = elim (move m c s) [
  | ends rest ↦ some ([], rest)
  | goes next ↦ constant s next
  | reads d next ↦ push d (constant s next)
]

abbrev pub from_quote : Char → String → Option (String × String)
from_quote c s = if is_quote c then constant s inside else none

unfoldable pub read_sql_value : String → Option (String × String)
unfolding constant
read_sql_value [] = none
read_sql_value (c ∷ s) = from_quote c s

-- whether the text, after white space, begins neither with a quote nor with a dash
unfoldable pub ends_constant : String → Bool
ends_constant [] = true
ends_constant (c ∷ s) =
    let behind = ends_constant s in
    if is_newline c || is_blank c then behind else not (is_quote c || is_dash c)
