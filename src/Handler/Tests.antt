-- ===== src/Handler/Tests.antt =====
-- A small configuration, and instances of the theorems on the handlers.
mod Whole
use pgfga.Base.{String, ◌≡◌, refl, Bool, true, false, none, some, List, [], ◌∷◌}
use pgfga.Base.Result.{Result, ok, err, failure}
use pgfga.GoMap.{lookup, put, put_all, contains}
use pgfga.GoMap.Laws.{last_of, or_else}
use pgfga.Text.{has_prefix, cut_prefix, drop_prefix}
use pgfga.Pg.State.{present, absent}
use pgfga.Pg.RoleOption.{absolute, enabled, invert}
use pgfga.Pg.RoleOption.Options.{
  validate, all_role_options, all_inverted_role_options, inverted, all_valid_role_options,
  to_valid_map, add_absolute,
}
use pgfga.Pg.Conn.Act.{new_conn}
use pgfga.Pg.Conn.Adds.{Sends}
use pgfga.Pg.Conn.Params.{Process, db_name, as_conns}
use pgfga.Pg.Role.Merging.{AreStored, new_role-IsStored}
use pgfga.Pg.Filled.{filled_server}
use pgfga.Pg.Fixture.{names_server, no_digest, databases}
use pgfga.Pg.Handler.{new_pg_handler}
use pgfga.Pg.ConnParam
use pgfga.Ldap.Credential.{System, Credential}
use pgfga.Ldap.Directory
use pgfga.Ldap.Directory.{Directory, new_ldap_handler}
use pgfga.Config.{FgaConfig, FgaUserConfig}
use pgfga.Handler.{PgFgaHandler, new_pg_fga_handler, user_options, role_options}
use pgfga.Handler.Run.{
  handle_roles, handle_users, handle_auth, handle_databases, handle_db_roles, prepare, handle,
}
use pgfga.Handler.Wanted.{lookup-user_options}
use pgfga.Handler.Named.{prepare-contains_user, prepare-contains}
use pgfga.Handler.Stored.{prepare-AreStored}
use pgfga.Handler.Handled.{Suits, handle-Suits}

abbrev pub no_system : System
no_system = record {
  lstat = λ file. err (failure file);
  run = λ file. none;
  read_file = λ file. err (failure file);
  decode_base64 = λ text. err (failure text);
}

abbrev pub no_directory : Directory
no_directory = record {
  dials = λ i server. false;
  bind = λ server usr pwd. none;
  search = λ server base_dn filter. ok [];
}

abbrev pub process : Process
process = record { getenv = λ name. ""; current_user = some "postgres" }

abbrev unset : Credential
unset = record { value = ""; file = ""; base64 = false }

-- A user with a password.
abbrev ann : FgaUserConfig
ann = record {
  auth = "password";
  base_dn = "";
  filter = "";
  member_of = "opex" ∷ [];
  options = "CREATEDB" ∷ "NOCREATEDB" ∷ [];
  expiry = some "2030-01-01T00:00:00Z";
  password = "secret";
  state = present;
}

-- A role that should be gone, and a user with a password.
abbrev pub config : FgaConfig
config = record {
  general_config = record { log_level = ""; run_delay = 0; debug = false };
  strict_config = record { users = false; databases = false; extensions = false; slots = false };
  ldap_config = record { usr = unset; pwd = unset; servers = []; max_retries = Directory.pos 1 };
  pg_dsn = ("host", "db1") ∷ [];
  dbs_config = databases;
  user_config = ("ann", ann) ∷ [];
  roles = ("gone", record { options = "NOLOGIN" ∷ []; member_of = []; state = absent }) ∷ [];
  slots = "standby1" ∷ [];
}

abbrev pub value_or : PgFgaHandler → Result PgFgaHandler → PgFgaHandler
value_or other (ok pfh) = pfh
value_or other (err e) = other

abbrev pub empty : PgFgaHandler
empty = record {
  pg = record {
    default_db = "";
    connections = [];
    strict_options = config.strict_config;
    databases = [];
    roles = [];
    grants = [];
    slots = [];
  };
  ldap = new_ldap_handler config.ldap_config;
}

abbrev made : PgFgaHandler
made = value_or empty (new_pg_fga_handler process config)

made_lem : new_pg_fga_handler process config ≡ ok made
unfolding new_pg_fga_handler new_pg_handler db_name as_conns lookup new_conn ConnParam.clone put_all
    put
made_lem = refl

handle-Suits_example :
    Sends {C = List String}
      (Suits no_digest (prepare no_system no_directory config made))
      (handle no_system no_directory no_digest config made)
handle-Suits_example = handle-Suits process no_system no_directory no_digest config made made_lem

abbrev wanted : PgFgaHandler
wanted = value_or empty (prepare no_system no_directory config made)

made-AreStored : AreStored made.pg.roles
unfolding new_pg_fga_handler new_pg_handler db_name as_conns lookup new_conn ConnParam.clone put_all
    put
made-AreStored = (new_role-IsStored "opex", tt)

abbrev is_ok : Result PgFgaHandler → Bool
is_ok (ok pfh) = true
is_ok (err e) = false

value_or_lem :
    (other : PgFgaHandler) (r : Result PgFgaHandler) → is_ok r ≡ true → r ≡ ok (value_or other r)
value_or_lem other (ok pfh) h = refl
value_or_lem other (err e) h = cc

prepare-is_ok : is_ok (prepare no_system no_directory config made) ≡ true
unfolding prepare handle_roles role_options handle_users user_options handle_auth handle_databases
    handle_db_roles validate contains lookup all_valid_role_options to_valid_map put_all
    all_role_options all_inverted_role_options inverted put invert cut_prefix has_prefix
prepare-is_ok = refl

prepare_lem : prepare no_system no_directory config made ≡ ok wanted
prepare_lem = value_or_lem empty (prepare no_system no_directory config made) prepare-is_ok

prepare-AreStored_example : AreStored wanted.pg.roles
prepare-AreStored_example =
    prepare-AreStored no_system no_directory config made made-AreStored prepare_lem

lookup-user_options_example :
    lookup "CREATEDB" (("CREATEDB", false) ∷ [])
    ≡ or_else
        (last_of absolute enabled "CREATEDB" ("CREATEDB" ∷ "NOCREATEDB" ∷ []))
        (lookup "CREATEDB" [])
unfolding user_options add_absolute absolute enabled validate all_valid_role_options to_valid_map
    all_role_options all_inverted_role_options inverted invert cut_prefix has_prefix drop_prefix
    put_all put contains lookup
lookup-user_options_example =
    lookup-user_options "CREATEDB" ("CREATEDB" ∷ "NOCREATEDB" ∷ []) [] refl

prepare-contains_example : contains "gone" wanted.pg.roles ≡ true
unfolding contains lookup
prepare-contains_example =
    prepare-contains no_system no_directory config made "gone" refl prepare_lem

prepare-contains_user_example : contains "ann" wanted.pg.roles ≡ true
unfolding lookup
prepare-contains_user_example =
    prepare-contains_user no_system no_directory config made "ann" ann refl refl prepare_lem
