-- ===== src/Pg/RoleOption/Names.antt =====
-- Which options are valid, and how an option and its inverse belong together.
use Prim.Native.String
use pgfga.Base.{
  String, ◌≡◌, refl, Bool, true, false, not, [], ◌∷◌, ◌==◌, eq_iff, if◌then◌else◌, arith,
  Bool-cases, inl, inr, All, ◌⊎◌, List, none, some, subst, ◌||◌, sym,
}
use pgfga.Base.Result.{ok, err, invalid_option}
use pgfga.GoMap.{Map, put, put_all, lookup, contains}
use pgfga.GoMap.Laws.{contains-put}
use pgfga.Text.{has_prefix, drop_prefix, cut_prefix, to_lower}
use pgfga.Pg.RoleOption.{RoleOption, absolute, enabled, invert, column, sql}
use pgfga.Pg.RoleOption.Options.{
  RoleOptionList, to_valid_map, all_role_options, all_valid_role_options, validate,
  all_inverted_role_options, inverted,
}

-- whether the option stands in the list
abbrev pub listed : RoleOption → RoleOptionList → Bool
listed opt [] = false
listed opt (x ∷ xs) = opt == x || listed opt xs

contains-put_all-true :
    (opt : RoleOption) (m : Map Bool) (xs : RoleOptionList)
    → contains opt (put_all (λ x. x) (λ _. true) m xs) ≡ (listed opt xs || contains opt m)
unfolding put_all
contains-put_all-true opt m [] = refl
contains-put_all-true opt m (x ∷ xs) = ground (
  arith,
  contains-put_all-true opt (put x true m) xs,
  contains-put x opt true m,
  eq_iff x opt,
  eq_iff opt x,
)

-- The map of valid options holds exactly what the list holds.
pub contains-to_valid_map :
    (opt : RoleOption) (xs : RoleOptionList) → contains opt (to_valid_map xs) ≡ listed opt xs
unfolding to_valid_map contains lookup
contains-to_valid_map opt xs = ground (arith, contains-put_all-true opt [] xs)

-- What holds of each listed option holds of an option that is found in the list.
listed-All :
    (P : RoleOption → Type 0) (opt : RoleOption) (xs : RoleOptionList)
    → listed opt xs ≡ true
    → All P xs
    → P opt
listed-All P opt [] e h = cc
listed-All P opt (x ∷ xs) e h = elim (Bool-cases (opt == x)) [
  | inl same ↦ subst P (sym ((eq_iff opt x).0 same)) h.0
  | inr other ↦ listed-All P opt xs (rw other at e) h.1
]

-- Validate looks an option up in the list.
validate-listed :
    (opt : RoleOption)
    → validate opt ≡ (if listed opt all_role_options then ok tt else err (invalid_option opt))
unfolding validate all_valid_role_options
validate-listed opt = rw contains-to_valid_map (elim (Bool-cases (listed opt all_role_options)) [
  | inl found ↦ rw found
  | inr missing ↦ rw missing
])

-- Induction over the valid options: a check of the fourteen names.
pub valid_induction :
    (P : RoleOption → Type 0)
    → All P all_role_options
    → (opt : RoleOption) → validate opt ≡ ok tt
    → P opt
valid_induction P h opt e = elim (Bool-cases (listed opt all_role_options)) [
  | inl found ↦ listed-All P opt all_role_options found h
  | inr missing ↦ absurd (cc (validate-listed opt, e, missing))
]

-- For a valid option: inverting twice gives it back, the inverse is valid, switches what the
-- option switches, and the other way; both have one absolute name, which is that of an enabled
-- option.
abbrev pub IsPaired : RoleOption → Type 0
IsPaired opt =
    (invert (invert opt) ≡ opt)
    × (validate (invert opt) ≡ ok tt)
    × (enabled (invert opt) ≡ not (enabled opt))
    × (absolute (invert opt) ≡ absolute opt)
    × (enabled (absolute opt) ≡ true)
    × (validate (absolute opt) ≡ ok tt)

-- For a valid option: inverting twice gives it back; the inverse is valid and enabled exactly if
-- the option is not; both have one absolute name, which is valid and enabled.
pub validate-IsPaired : (opt : RoleOption) → validate opt ≡ ok tt → IsPaired opt
unfolding all_role_options all_inverted_role_options inverted invert cut_prefix validate
    all_valid_role_options to_valid_map put_all put contains lookup enabled absolute has_prefix
validate-IsPaired = valid_induction IsPaired (assumption)

-- The body of RoleOption.SQL as it is written in Go.
sql_lem :
    (opt : RoleOption)
    → sql opt ≡ (if enabled opt then column opt else String.◌++◌ "not " (sql (invert opt)))
unfolding sql enabled invert cut_prefix drop_prefix has_prefix
sql_lem String.[] = refl
sql_lem (String.◌∷◌ c String.[]) = ground arith
sql_lem (String.◌∷◌ c (String.◌∷◌ d rest)) = ground arith

-- The options of PostgreSQL's CREATE ROLE that switch an attribute of a role, each with the test of
-- pg_roles that tells whether a role has it, as its manual has them: CREATE ROLE and section 54.20.
abbrev pub catalog_tests : Map String
catalog_tests =
    ("SUPERUSER", "rolsuper")
    ∷ ("LOGIN", "rolcanlogin")
    ∷ ("CREATEROLE", "rolcreaterole")
    ∷ ("CREATEDB", "rolcreatedb")
    ∷ ("INHERIT", "rolinherit")
    ∷ ("REPLICATION", "rolreplication")
    ∷ ("BYPASSRLS", "rolbypassrls")
    ∷ ("NOSUPERUSER", "not rolsuper")
    ∷ ("NOLOGIN", "not rolcanlogin")
    ∷ ("NOCREATEROLE", "not rolcreaterole")
    ∷ ("NOCREATEDB", "not rolcreatedb")
    ∷ ("NOINHERIT", "not rolinherit")
    ∷ ("NOREPLICATION", "not rolreplication")
    ∷ ("NOBYPASSRLS", "not rolbypassrls")
    ∷ []

abbrev keys : Map String → List String
keys [] = []
keys ((k, v) ∷ m) = k ∷ keys m

lookup_unlisted : (k : String) (m : Map String) → listed k (keys m) ≡ false → lookup k m ≡ none
unfolding lookup
lookup_unlisted k [] h = refl
lookup_unlisted k ((j, v) ∷ m) h = ground (arith, eq_iff j k, eq_iff k j, lookup_unlisted k m)

-- An option that the catalogue knows is valid and is tested as the catalogue says; any other is
-- refused by an error that names it.
abbrev pub IsKnown : RoleOption → Type 0
IsKnown opt =
    ((validate opt ≡ ok tt) × (lookup opt catalog_tests ≡ some (sql opt)))
    ⊎ ((validate opt ≡ err (invalid_option opt)) × (lookup opt catalog_tests ≡ none))

catalog_tests-sql :
    (opt : RoleOption) → validate opt ≡ ok tt → lookup opt catalog_tests ≡ some (sql opt)
unfolding all_role_options all_inverted_role_options inverted invert cut_prefix enabled has_prefix
    sql column to_lower lookup
catalog_tests-sql = valid_induction (λ opt. lookup opt catalog_tests ≡ some (sql opt)) (assumption)

-- The options that Validate accepts are exactly the fourteen that switch an attribute of a role in
-- PostgreSQL on or off, and the SQL test of each asks for that attribute in pg_roles, or for its
-- absence; any other option is refused by an error that names it.
pub validate-IsKnown : (opt : RoleOption) → IsKnown opt
unfolding all_role_options all_inverted_role_options inverted invert cut_prefix has_prefix
validate-IsKnown opt = elim (Bool-cases (listed opt all_role_options)) [
  | inl found ↦ inl (
    rw (validate-listed opt, found) refl,
    catalog_tests-sql opt (rw (validate-listed opt, found) refl),
  )
  | inr missing ↦
      inr (rw (validate-listed opt, missing) refl, lookup_unlisted opt catalog_tests missing)
]

-- The options that the program adds itself are valid.
pub validate-own :
    (validate "LOGIN" ≡ ok tt) × (validate "CREATEDB" ≡ ok tt) × (enabled "CREATEDB" ≡ true)
unfolding enabled has_prefix all_role_options all_inverted_role_options inverted invert cut_prefix
    validate all_valid_role_options to_valid_map put_all put contains lookup
validate-own = (refl, refl, refl)
