-- ===== src/Handler/Wanted.antt =====
-- The options that a list of option names asks for.
use pgfga.Base.{String, ◌≡◌, List, [], ◌∷◌, ◌∙◌, arith, ap, sym, subst}
use pgfga.Base.Result.{ok, ok-injective, >>=-eq-ok}
use pgfga.GoMap.{lookup, put}
use pgfga.GoMap.Laws.{AllEntries-put, last_of, or_else, lookup-put}
use pgfga.Pg.RoleOption.{absolute, enabled}
use pgfga.Pg.RoleOption.Options.{RoleOptionMap, validate, add_absolute}
use pgfga.Pg.Role.Merging.{add_absolute-AreOn, AreOn, AreValid}
use pgfga.Handler.{user_options, role_options}

-- If the options of a user are all valid, the map that is made of them holds, for each name,
-- whether the last option with that absolute name is enabled, and for any other name what the map
-- held before.
pub lookup-user_options :
    (k : String) (names : List String) (start : RoleOptionMap) {options : RoleOptionMap}
    → user_options start names ≡ ok options
    → lookup k options ≡ or_else (last_of absolute enabled k names) (lookup k start)
unfolding user_options last_of add_absolute
lookup-user_options k [] start e = ap (lookup k) (sym (ok-injective e))
lookup-user_options k (opt ∷ names) start e =
    let (_, valid, rest) = >>=-eq-ok (validate opt) _ e in
    lookup-user_options k names (put (absolute opt) (enabled opt) start) rest
    ∙ ground (arith, lookup-put (absolute opt) k (enabled opt) start)

-- The options of a user are stored under names that switch something on.
pub user_options-AreOn :
    (names : List String) (start : RoleOptionMap) {options : RoleOptionMap}
    → AreOn start
    → user_options start names ≡ ok options
    → AreOn options
unfolding user_options
user_options-AreOn [] start h e = subst AreOn (ok-injective e) h
user_options-AreOn (opt ∷ names) start h e =
    let (_, valid, rest) = >>=-eq-ok (validate opt) _ e in
    user_options-AreOn names (add_absolute start opt) (add_absolute-AreOn start opt valid h) rest

-- The options of a role are stored under their own names, which are valid.
pub role_options-AreValid :
    (names : List String) (start : RoleOptionMap) {options : RoleOptionMap}
    → AreValid start
    → role_options start names ≡ ok options
    → AreValid options
unfolding role_options
role_options-AreValid [] start h e = subst AreValid (ok-injective e) h
role_options-AreValid (opt ∷ names) start h e =
    let (_, valid, rest) = >>=-eq-ok (validate opt) _ e in
    role_options-AreValid names (put opt (enabled opt) start)
      (AllEntries-put _ opt (enabled opt) start valid h) rest
