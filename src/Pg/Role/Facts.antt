-- ===== src/Pg/Role/Facts.antt =====
-- What the program relies on of a server's roles.
use pgfga.Base.{String, ◌≡◌, Bool, true, [], ◌∷◌, All}
use pgfga.GoMap.Laws.{AllEntries}
use pgfga.Pg.RoleOption.{RoleOption}
use pgfga.Pg.RoleOption.Options.{to_list}
use pgfga.Pg.Server.{Server}
use pgfga.Pg.Conn.Act.{Statement}
use pgfga.Pg.Conn.Ensuring.{IsEnsuring, Spares}
use pgfga.Pg.Role.{Role, Roles, entries}
use pgfga.Pg.Role.Actions.{exists_query, option_query, create_sql, alter_sql}
use pgfga.Pg.Role.Merging.{IsOn}

-- What can be said of a role: that it exists, or that it has an option.
pub data Fact : Type 0 where
  is_role : String → Fact
  has_option : String → RoleOption → Fact

-- Options of interest are those that switch something on.
abbrev pub IsPositive : Fact → Type 0
IsPositive (is_role name) = Unit
IsPositive (has_option name opt) = IsOn opt

-- What the program relies on: the queries tell whether a role exists and has an option, creating
-- and altering without an error do what they say, and the statements with the property `P` remove no
-- role and switch no option off.
pub record IsRoleServer {C : Type 0} ⦃srv : Server C⦄ (P : Statement → Type 0)
    (holds : Fact → C → Bool) : Type 0 where
  pub creates :
      (name : String)
      → IsEnsuring exists_query (name ∷ []) (create_sql name) [] (holds (is_role name))
  pub alters :
      (name : String) (opt : RoleOption)
      → IsOn opt
      → IsEnsuring
          (option_query opt)
          (name ∷ [])
          (alter_sql name opt)
          []
          (holds (has_option name opt))
  pub spares :
      (s : Statement) (fact : Fact) → P s → IsPositive fact → Spares s.sql s.args (holds fact)

-- The role exists and has all options of its map.
abbrev pub Exists : {C : Type 0} → (Fact → C → Bool) → String → Role → C → Type 0
Exists holds name r c =
    (holds (is_role name) c ≡ true)
    × All (λ opt. holds (has_option name opt) c ≡ true) (to_list (entries r.options))

abbrev pub AllExist : {C : Type 0} → (Fact → C → Bool) → Roles → C → Type 0
AllExist holds rs c = AllEntries (λ name r. Exists holds name r c) rs
