-- ===== src/Pg/Role/Actions.antt =====
-- pkg/pg/role.go: bringing a role in line on the server, and dropping it. Each method that takes a
-- Conn by value and calls a method of it is `by_value`.
use Prim.Native.String.{◌++◌, len}
use pgfga.Base.{String, Bool, not, none, some, [], ◌∷◌, ◌&&◌, ◌==◌, ◌=ℕ=◌, if◌then◌else◌, map}
use pgfga.Base.Result.{scan_error}
use pgfga.Text.{has_prefix}
use pgfga.Pg.State.{present, absent, ◌=S=◌}
use pgfga.Pg.Quote.{identifier, quoted_sql_value}
use pgfga.Pg.RoleOption.{RoleOption, sql}
use pgfga.Pg.RoleOption.Options.{to_list, is_enabled}
use pgfga.Pg.Server.{Server, Scans, row, no_rows, failed}
use pgfga.Pg.Conn.Act.{Act, raise, by_value, on_conn, done, run_all, ◌>>=◌, ◌>>◌}
use pgfga.Pg.Conn.Query.{switch_db, ask_pair, run_query_exists, run_query_exec}
use pgfga.Pg.Role.{Role, Roles, Time, entries}

-- crypto/md5: the digest of a text, in hexadecimal
pub record Digest : Type 0 where
  pub md5_hex : String → String

abbrev pub exists_query : String
exists_query = "SELECT rolname FROM pg_Roles WHERE rolname = $1"

abbrev pub droppable_query : String
droppable_query = "SELECT rolname FROM pg_Roles WHERE rolname = $1 AND rolname != CURRENT_USER"

abbrev pub owners_query : String
owners_query =
    "select db.datname, o.rolname as newOwner from pg_database db inner join \n\t\t\t  pg_Roles o on db.datdba = o.oid where db.datname != 'template0'"

abbrev pub password_differs_query : String
password_differs_query =
    "\n\tSELECT rolname \n\tFROM pg_Roles \n\tWHERE rolname = $1\n\t\tAND rolname NOT IN (\n\t\t\tSELECT usename \n\t\t\tFROM pg_shadow \n\t\t\tWHERE usename = $1\n\t\t\tAND COALESCE(passwd, '') = $2);"

abbrev pub has_password_query : String
has_password_query =
    "SELECT usename FROM pg_shadow WHERE usename = $1\n\tAND Passwd IS NOT NULL AND usename != CURRENT_USER"

abbrev pub expiry_differs_query : String
expiry_differs_query =
    "SELECT rolname FROM pg_Roles where rolname = $1 AND (rolvaliduntil IS NULL OR rolvaliduntil != $2);"

abbrev pub has_expiry_query : String
has_expiry_query =
    "SELECT rolname\n\tFROM pg_Roles\n\tWHERE rolname = $1\n\tAND rolvaliduntil IS NOT NULL\n\tAND rolvaliduntil != 'infinity';"

abbrev pub option_query : RoleOption → String
option_query option = "SELECT rolname FROM pg_Roles WHERE rolname = $1 AND " ++ sql option

abbrev pub create_sql : String → String
create_sql name = "CREATE ROLE " ++ identifier name

-- The option is part of a format in Go. No valid option holds a percent sign.
abbrev pub alter_sql : String → RoleOption → String
alter_sql name option = "ALTER ROLE " ++ (identifier name ++ (" WITH " ++ option))

abbrev pub set_password_sql : String → String → String
set_password_sql name hashed =
    "ALTER ROLE " ++ (identifier name ++ (" WITH ENCRYPTED PASSWORD " ++ quoted_sql_value hashed))

abbrev pub reset_password_sql : String → String
reset_password_sql name = "ALTER USER " ++ (identifier name ++ " WITH PASSWORD NULL")

abbrev pub set_expiry_sql : String → String → String
set_expiry_sql name expiry =
    "ALTER ROLE " ++ (identifier name ++ (" VALID UNTIL " ++ quoted_sql_value expiry))

abbrev pub reset_expiry_sql : String → String
reset_expiry_sql name = "ALTER ROLE " ++ (identifier name ++ " VALID UNTIL 'infinity'")

abbrev pub reassign_sql : String → String → String
reassign_sql name new_owner =
    "REASSIGN OWNED BY " ++ (identifier name ++ (" TO " ++ identifier new_owner))

abbrev pub drop_sql : String → String
drop_sql name = "DROP ROLE " ++ identifier name

-- the hash that is compared and set, unless the password is one already
unfoldable pub hashed_password : Digest → Role → String
hashed_password digest r =
    if (len r.password =ℕ= 35) && has_prefix r.password "md5"
    then r.password
    else "md5" ++ digest.md5_hex (r.password ++ r.name)

-- whether a password is managed: r.Password != "" && r.Options.IsEnabled(RoleLogin)
unfoldable pub has_login_password : Role → Bool
has_login_password r = not (r.password == "") && is_enabled (entries r.options) "LOGIN"

module _ {C : Type 0} ⦃srv : Server C⦄ where
  -- Role.exists
  unfoldable pub exists : Role → Act C Bool
  exists r = by_value (run_query_exists exists_query (r.name ∷ []))

  -- Role.create
  unfoldable pub create : Role → Act C (Unit {0})
  create r =
      if r.state =S= absent
      then done
      else by_value
          do found ← exists r; if found then done else run_query_exec (create_sql r.name) []

  -- Role.hasOptions
  unfoldable pub has_options : Role → RoleOption → Act C Bool
  has_options r option = by_value (run_query_exists (option_query option) (r.name ∷ []))

  -- the body of the loop of Role.reconcileRoleOptions
  unfoldable pub reconcile_option : Role → RoleOption → Act C (Unit {0})
  reconcile_option r option = do
    has_option ← has_options r option
    if has_option then done else run_query_exec (alter_sql r.name option) []

  -- Role.reconcileRoleOptions: the loop is over the keys alone
  unfoldable pub reconcile_role_options : Role → Act C (Unit {0})
  reconcile_role_options r =
      by_value (run_all (map (reconcile_option r) (to_list (entries r.options))))

  abbrev pub set_expiry_to : Role → Time → Act C (Unit {0})
  set_expiry_to r none = done
  set_expiry_to r (some formatted) = by_value do
    differs ← run_query_exists expiry_differs_query (r.name ∷ formatted ∷ [])
    if differs then run_query_exec (set_expiry_sql r.name formatted) [] else done

  -- Role.reconcileSetExpiry
  unfoldable pub reconcile_set_expiry : Role → Act C (Unit {0})
  reconcile_set_expiry r = set_expiry_to r r.expiry

  abbrev pub reset_expiry_from : Role → Time → Act C (Unit {0})
  reset_expiry_from r (some _) = done
  reset_expiry_from r none = by_value do
    found ← run_query_exists has_expiry_query (r.name ∷ [])
    if found then run_query_exec (reset_expiry_sql r.name) [] else done

  -- Role.reconcileResetExpiry
  unfoldable pub reconcile_reset_expiry : Role → Act C (Unit {0})
  reconcile_reset_expiry r = reset_expiry_from r r.expiry

  -- Role.reconcileResetPassword
  unfoldable pub reconcile_reset_password : Role → Act C (Unit {0})
  reconcile_reset_password r =
      if has_login_password r
      then done
      else by_value do
        found ← run_query_exists has_password_query (r.name ∷ [])
        if found then run_query_exec (reset_password_sql r.name) [] else done

  module _ (digest : Digest) where
    -- Role.reconcileSetPassword
    unfoldable pub reconcile_set_password : Role → Act C (Unit {0})
    reconcile_set_password r =
        if not (has_login_password r)
        then done
        else by_value do
          let hashed = hashed_password digest r
          differs ← run_query_exists password_differs_query (r.name ∷ hashed ∷ [])
          if differs then run_query_exec (set_password_sql r.name hashed) [] else done

    -- Role.reconcile
    unfoldable pub reconcile : Role → Act C (Unit {0})
    reconcile r =
        if r.state =S= absent
        then done
        else run_all (
            create r
            ∷ reconcile_role_options r
            ∷ reconcile_set_expiry r
            ∷ reconcile_reset_expiry r
            ∷ reconcile_set_password r
            ∷ reconcile_reset_password r
            ∷ [])

    -- Roles.reconcile
    unfoldable pub reconcile_all : Roles → Act C (Unit {0})
    reconcile_all [] = done
    reconcile_all ((role_name, role) ∷ rs) =
        reconcile (record role { name = role_name }) >> reconcile_all rs

  -- the loop over the databases in Role.drop
  unfoldable pub reassign_all : Role → Scans (String × String) → Act C (Unit {0})
  reassign_all r no_rows = done
  reassign_all r (failed _) = raise (scan_error owners_query)
  reassign_all r (row (db_name, new_owner) rest) = do
    λ e. on_conn (switch_db e.conn db_name) (run_query_exec (reassign_sql r.name new_owner) []) e
    reassign_all r rest

  -- Role.drop, but for the state of the caller's copy, which no one reads
  unfoldable pub drop : Role → Act C (Unit {0})
  drop r =
      if r.state =S= present
      then done
      else by_value do
        droppable ← run_query_exists droppable_query (r.name ∷ [])
        if not droppable then done else do
          owners ← ask_pair owners_query []
          reassign_all r owners
          run_query_exec (drop_sql r.name) []

  -- Roles.finalize
  unfoldable pub finalize_all : Roles → Act C (Unit {0})
  finalize_all [] = done
  finalize_all ((role_name, role) ∷ rs) = drop (record role { name = role_name }) >> finalize_all rs
