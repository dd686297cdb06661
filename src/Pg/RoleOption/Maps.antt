-- ===== src/Pg/RoleOption/Maps.antt =====
-- What the maps of options hold after cloning, merging and adding.
use pgfga.Base.{
  String, ◌≡◌, refl, true, none, some, [], ◌∷◌, eq_iff, if◌then◌else◌, arith, ◌∙◌, ap, eq_refl,
}
use pgfga.Base.Result.{ok}
use pgfga.GoMap.{lookup, put, contains}
use pgfga.GoMap.Laws.{contains-put, lookup-put_all, last_of, or_else}
use pgfga.Pg.RoleOption.{RoleOption, absolute, enabled}
use pgfga.Pg.RoleOption.Options.{RoleOptionMap, validate, to_list, clone, merge, add_absolute}
use pgfga.Pg.RoleOption.Names.{validate-IsPaired}

last_of-to_list :
    (k : String) (m : RoleOptionMap)
    → last_of (λ opt. opt) enabled k (to_list m) ≡ (if contains k m then some (enabled k) else none)
unfolding last_of to_list contains lookup
last_of-to_list k [] = refl
last_of-to_list k ((i, w) ∷ m) = ground (arith, last_of-to_list k m, eq_iff i k)

-- A clone has the keys of the map; each value is computed again from the key.
pub lookup-clone :
    (k : String) (m : RoleOptionMap)
    → lookup k (clone m) ≡ (if contains k m then some (enabled k) else none)
unfolding clone lookup
lookup-clone k m =
    lookup-put_all (λ opt. opt) enabled k [] (to_list m) ∙ ground (arith, last_of-to_list k m)

-- A merge of two maps of options holds, for each name, whether the last option of the second map
-- with that absolute name is enabled, and for a name without such an option what a clone of the
-- first map holds.
pub lookup-merge :
    (k : String) (m n : RoleOptionMap)
    → lookup k (merge m n) ≡ or_else (last_of absolute enabled k (to_list n)) (lookup k (clone m))
unfolding merge
lookup-merge k m n = lookup-put_all absolute enabled k (clone m) (to_list n)

-- Cloning forgets that an option was switched off: whatever valid option is added to a map, the
-- clone of the map has its absolute name switched on.
pub clone-add_absolute :
    (m : RoleOptionMap) (opt : RoleOption)
    → validate opt ≡ ok tt
    → lookup (absolute opt) (clone (add_absolute m opt)) ≡ some true
unfolding add_absolute
clone-add_absolute m opt v =
    lookup-clone (absolute opt) (put (absolute opt) (enabled opt) m)
    ∙ rw (contains-put, eq_refl) (ap some (validate-IsPaired opt v).4)
