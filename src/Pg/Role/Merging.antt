-- ===== src/Pg/Role/Merging.antt =====
-- What the map of roles holds after AddRole.
use pgfga.Base.{
  String, ◌≡◌, ◌≢◌, refl, true, Option, none, some, [], ◌∷◌, ◌==◌, if◌then◌else◌, arith, All,
  Option-cases, inl, inr,
}
use pgfga.Base.Result.{ok}
use pgfga.GoMap.{lookup, put}
use pgfga.GoMap.Laws.{
  lookup-put, put-put, AllEntries, AllEntries-lookup, AllEntries-put, AllEntries-put_all,
}
use pgfga.Pg.State.{present}
use pgfga.Pg.RoleOption.{RoleOption, absolute, enabled}
use pgfga.Pg.RoleOption.Options
use pgfga.Pg.RoleOption.Options.{RoleOptionMap, validate, to_list}
use pgfga.Pg.RoleOption.Names.{validate-IsPaired}
use pgfga.Pg.Role.{Role, Roles, entries, zero_role, clone, merge, new_role, add_role}

abbrev pub or_zero : Option Role → Role
or_zero none = zero_role
or_zero (some r) = r

-- AddRole stores, under the name of the role, the merge of the role that was there, or of the zero
-- role, with the new one, and changes no other role.
pub lookup-add_role :
    (roles : Roles) (r : Role) (k : String)
    → lookup k (add_role roles r)
      ≡ (if r.name == k then some (merge (or_zero (lookup r.name roles)) r) else lookup k roles)
unfolding add_role
lookup-add_role roles r k = elim (Option-cases (lookup r.name roles)) [
  | inl missing ↦ rw missing (
      ground (
        arith,
        lookup-put r.name k (merge zero_role r) (put r.name r roles),
        lookup-put r.name k r roles,
      ))
  | inr (role, found) ↦ rw found (lookup-put r.name k (merge role r) roles)
]

-- The option is valid and switches something on.
abbrev pub IsOn : RoleOption → Type 0
IsOn opt = (enabled opt ≡ true) × (validate opt ≡ ok tt)

-- The keys of a map of options are valid options without NO.
abbrev pub AreOn : RoleOptionMap → Type 0
AreOn = AllEntries (λ opt _. IsOn opt)

-- The keys of a map of options are valid options.
abbrev pub AreValid : RoleOptionMap → Type 0
AreValid = AllEntries (λ opt _. validate opt ≡ ok tt)

-- What holds of every role that AddRole and GetRole store.
pub record IsStored (r : Role) : Type 0 where
  pub is_present : r.state ≡ present
  pub no_password : r.password ≡ ""
  pub no_expiry : r.expiry ≡ none
  pub made : r.options ≢ none
  pub switched_on : AreOn (entries r.options)

abbrev pub AreStored : Roles → Type 0
AreStored = AllEntries (λ _ r. IsStored r)

pub AreOn-AreValid : (m : RoleOptionMap) → AreOn m → AreValid m
AreOn-AreValid [] h = tt
AreOn-AreValid ((opt, v) ∷ m) h = (h.0.1, AreOn-AreValid m h.1)

pub to_list-AreOn : (m : RoleOptionMap) → AreOn m → All IsOn (to_list m)
unfolding to_list
to_list-AreOn [] h = tt
to_list-AreOn ((opt, v) ∷ m) h = (h.0, to_list-AreOn m h.1)

to_list-AreValid : (m : RoleOptionMap) → AreValid m → All (λ opt. IsOn (absolute opt)) (to_list m)
unfolding to_list
to_list-AreValid [] h = tt
to_list-AreValid ((opt, v) ∷ m) h =
    (((validate-IsPaired opt h.0).4, (validate-IsPaired opt h.0).5), to_list-AreValid m h.1)

pub clone-AreOn : (m : RoleOptionMap) → AreOn m → AreOn (Options.clone m)
unfolding Options.clone
clone-AreOn m hm =
    AllEntries-put_all (λ opt. opt) enabled (λ opt _. IsOn opt) [] (to_list m) (to_list-AreOn m hm)
      tt

-- Adding a valid option adds its absolute name.
pub add_absolute-AreOn :
    (m : RoleOptionMap) (opt : RoleOption)
    → validate opt ≡ ok tt
    → AreOn m
    → AreOn (Options.add_absolute m opt)
unfolding Options.add_absolute
add_absolute-AreOn m opt v h =
    let pair = validate-IsPaired opt v in
    AllEntries-put _ (absolute opt) (enabled opt) m (pair.4, pair.5) h

pub merge-AreOn : (m n : RoleOptionMap) → AreOn m → AreValid n → AreOn (Options.merge m n)
unfolding Options.merge
merge-AreOn m n hm hn =
    AllEntries-put_all absolute enabled (λ opt _. IsOn opt) (Options.clone m) (to_list n)
      (to_list-AreValid n hn) (clone-AreOn m hm)

merge-IsStored :
    (r other : Role)
    → r.state ≡ present
    → AreOn (entries r.options)
    → AreValid (entries other.options)
    → IsStored (merge r other)
unfolding merge clone
merge-IsStored r other p e v = record {
  is_present = ground arith;
  no_password = refl;
  no_expiry = refl;
  made = λ q. cc;
  switched_on = merge-AreOn (entries r.options) (entries other.options) e v;
}

-- Whatever role with valid options is added, one with state absent or with a password too: if every
-- role of the map was present, with no password and no expiry, and with valid options that switch
-- something on, then so is every role afterwards.
pub add_role-AreStored :
    (roles : Roles) (r : Role)
    → AreValid (entries r.options)
    → AreStored roles
    → AreStored (add_role roles r)
unfolding add_role
add_role-AreStored roles r v h = elim (Option-cases (lookup r.name roles)) [
  | inl missing ↦
      rw (missing, put-put)
        (AllEntries-put _ r.name (merge zero_role r) roles (merge-IsStored zero_role r refl tt v) h)
  | inr (role, found) ↦
      let old = AllEntries-lookup _ r.name role roles h found in
      rw found (
        AllEntries-put _ r.name (merge role r) roles
          (merge-IsStored role r old.is_present old.switched_on v) h)
]

pub new_role-IsStored : (name : String) → IsStored (new_role name)
unfolding new_role
new_role-IsStored name = record {
  is_present = refl;
  no_password = refl;
  no_expiry = refl;
  made = λ q. cc;
  switched_on = tt;
}

-- The name does not matter.
pub IsStored-named : (r : Role) (name : String) → IsStored r → IsStored (record r { name = name })
IsStored-named r name h = record {
  is_present = h.is_present;
  no_password = h.no_password;
  no_expiry = h.no_expiry;
  made = h.made;
  switched_on = h.switched_on;
}
