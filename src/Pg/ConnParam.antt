-- ===== src/Pg/ConnParam.antt =====
-- pkg/pg/conn_param.go: the parameters of a connection. Their quoting is in Quote.
use Prim.Native.String
use mathlib.Core.List.{List, [], ◌∷◌, map}
use Prim.Native.Nat.{Ordering}
use pgfga.Base.{String, Bool, true, false, none, some, if◌then◌else◌}
use pgfga.GoMap.{Map, lookup, put_all}
use pgfga.Text.{join}
use pgfga.Pg.Quote.{connect_string_value}

abbrev pub conn_param_db_name : String
conn_param_db_name = "dbname"

abbrev pub ConnParams : Type 0
ConnParams = Map String

-- s <= t on texts, as Go's sort compares them
text_leb : String → String → Bool
text_leb s t = elim (String.compare s t) [ Ordering.gt ↦ false | _ ↦ true ]

insert_sorted : String → List String → List String
insert_sorted k [] = k ∷ []
insert_sorted k (j ∷ l) = if text_leb k j then k ∷ j ∷ l else j ∷ insert_sorted k l

-- slices.Sorted(maps.Keys(dsn))
sorted_keys : ConnParams → List String
sorted_keys [] = []
sorted_keys ((k, _) ∷ dsn) = insert_sorted k (sorted_keys dsn)

-- dsn[key], which is empty for a key that is not there
abbrev value_at : ConnParams → String → String
value_at dsn key = elim (lookup key dsn) [ none ↦ "" | some v ↦ v ]

format_pair : ConnParams → String → String
format_pair dsn key = String.◌++◌ key (String.◌++◌ "=" (connect_string_value (value_at dsn key)))

-- ConnParams.String
unfoldable pub to_string : ConnParams → String
unfolding text_leb insert_sorted sorted_keys lookup format_pair
to_string dsn = join (map (format_pair dsn) (sorted_keys dsn)) " "

-- ConnParams.Clone
unfoldable pub clone : ConnParams → ConnParams
clone dsn = put_all (λ e. e.0) (λ e. e.1) [] dsn
