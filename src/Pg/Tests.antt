-- ===== src/Pg/Tests.antt =====
-- Runs of the package pg on small examples, and instances of its theorems.
use Prim.Native.String.{◌++◌}
use pgfga.Base.{
  Bool, arith, ◌=ℕ=◌, String, ◌≡◌, refl, true, false, none, some, List, [], ◌∷◌, if◌then◌else◌,
}
use pgfga.Base.Result.{ok}
use pgfga.GoMap.{lookup, put, put_all, contains}
use pgfga.GoMap.Laws.{last_of, or_else}
use pgfga.Text.{has_prefix, cut_prefix}
use pgfga.Pg.State
use pgfga.Pg.State.{present, absent, allowed}
use pgfga.Pg.State.Laws.{unmarshal_yaml-marshal_yaml}
use pgfga.Pg.Quote.{identifier, quoted_sql_value, connect_string_value}
use pgfga.Pg.Quote.Lexing.{read_identifier, read_connect_value}
use pgfga.Pg.Quote.Lexing.Constant.{read_sql_value, ends_constant}
use pgfga.Pg.Quote.RoundTrip.{
  read_identifier-identifier, read_sql_value-quoted_sql_value,
  read_connect_value-connect_string_value,
}
use pgfga.Pg.RoleOption.{absolute, enabled, invert}
use pgfga.Pg.RoleOption.Options
use pgfga.Pg.RoleOption.Options.{
  validate, all_role_options, all_inverted_role_options, inverted, all_valid_role_options,
  to_valid_map,
}
use pgfga.Pg.RoleOption.Names.{IsPaired, validate-IsPaired, IsKnown, validate-IsKnown}
use pgfga.Pg.RoleOption.Maps.{lookup-merge, clone-add_absolute}
use pgfga.Pg.Filled.{filled_server, empty_cluster, filled-IsSlotServer, filled-IsRoleServer}
use pgfga.Pg.Slot.Converging as Slots
use pgfga.Pg.Slot.Converging.{reconcile_all-reconcile_all}
use pgfga.Pg.Role.Facts.{AllExist}
use pgfga.Pg.Role.Converging.{reconcile_all-AllExist}
use pgfga.Pg.Conn.Act.{Env, ◌>>=◌, by_value, run_all}
use pgfga.Pg.Conn.Adds.{Sends}
use pgfga.Pg.Conn.Query.{
  run_query_exists, run_query_exec, ask, send, connect, connect_held, open_session,
}
use pgfga.Pg.Conn.Sessions.{IsLive, IsNumbered, connect-connect}
use pgfga.Pg.Role.{add_role, merge}
use pgfga.Pg.Role.Merging.{AreStored, add_role-AreStored, lookup-add_role, or_zero}
use pgfga.Pg.Role.Actions
use pgfga.Pg.Role.Statements.{RoleStatement, reconcile-RoleStatement}
use pgfga.Pg.Role.AllRoles.{PlainStatement, reconcile_all-PlainStatement}
use pgfga.Pg.Handler.{Handler, finalize}
use pgfga.Pg.Handler.Finalizing.{FinalizeStatement, finalize-FinalizeStatement}
use pgfga.Pg.Grant
use pgfga.Pg.Grant.Laws.{FromGrants, reconcile_all-FromGrants}
use pgfga.Pg.Slot
use pgfga.Pg.Slot.Laws.{Creates, Drops, slots_lem}
use pgfga.Pg.Schema
use pgfga.Pg.Schema.Laws.{FromSchemas, reconcile_all-FromSchemas}
use pgfga.Pg.Extension
use pgfga.Pg.Extension.Laws.{FromExtensions, reconcile_all-FromExtensions}
use pgfga.Pg.Database
use pgfga.Pg.Database.Laws.{FromDatabases, DropsDatabases, databases_lem}
use pgfga.Pg.Fixture.{
  names_server, no_digest, start, app, report, roles, grants, slots, schemas, extensions, databases,
}

-- The role app is made of parts that AddRole accepts.
roles-AreStored : AreStored roles
unfolding validate all_valid_role_options to_valid_map all_role_options all_inverted_role_options
    inverted invert enabled cut_prefix has_prefix put_all put contains lookup
roles-AreStored = (
  record {
    is_present = refl;
    no_password = refl;
    no_expiry = refl;
    made = λ q. cc;
    switched_on = ((refl, refl), tt);
  },
  tt,
)

abbrev filled_later : Env Bool
filled_later = record empty_cluster { world = record empty_cluster.world { cluster = true } }

add_role-AreStored_example : AreStored (add_role roles report)
unfolding validate all_valid_role_options to_valid_map all_role_options all_inverted_role_options
    inverted invert enabled cut_prefix has_prefix put_all put contains lookup
add_role-AreStored_example = add_role-AreStored roles report (refl, tt) roles-AreStored

lookup-add_role_example :
    lookup "app" (add_role roles app) ≡ some (merge (or_zero (lookup "app" roles)) app)
lookup-add_role_example = lookup-add_role roles app "app"

reconcile-RoleStatement_example :
    Sends {C = List String} (RoleStatement no_digest report) (Actions.reconcile no_digest report)
reconcile-RoleStatement_example = reconcile-RoleStatement no_digest report

reconcile_all-PlainStatement_example :
    Sends {C = List String} PlainStatement (Actions.reconcile_all no_digest roles)
reconcile_all-PlainStatement_example = reconcile_all-PlainStatement no_digest roles roles-AreStored

reconcile_all-FromGrants_example :
    Sends {C = List String} (FromGrants grants) (Grant.reconcile_all grants)
reconcile_all-FromGrants_example = reconcile_all-FromGrants grants

slots_lem_example :
    Sends {C = List String} (Creates slots) (Slot.reconcile_all slots)
    × Sends {C = List String} (Drops slots) (Slot.finalize_all slots)
slots_lem_example = slots_lem slots

reconcile_all-FromSchemas_example :
    Sends {C = List String} (FromSchemas schemas) (Schema.reconcile_all schemas)
reconcile_all-FromSchemas_example = reconcile_all-FromSchemas schemas

reconcile_all-FromExtensions_example :
    Sends {C = List String} (FromExtensions extensions) (Extension.reconcile_all extensions)
reconcile_all-FromExtensions_example = reconcile_all-FromExtensions extensions

databases_lem_example :
    Sends {C = List String} (FromDatabases databases) (Database.reconcile_all databases)
    × Sends {C = List String} (DropsDatabases databases) (Database.finalize_all databases)
databases_lem_example = databases_lem databases

-- A wanted state with a role and a database that should be gone.
abbrev leaving : Handler
leaving = record {
  default_db = "";
  connections = ("", record { conn_params = ("host", "db1") ∷ []; conn = none }) ∷ [];
  strict_options = record { users = false; databases = false; extensions = false; slots = false };
  databases =
      ("shop", record { name = ""; owner = ""; extensions = none; schemas = none; state = absent })
      ∷ [];
  roles = ("report", report) ∷ roles;
  grants = record { grantee = app; granted = report; state = absent } ∷ [];
  slots = slots;
}

finalize-FinalizeStatement_example :
    Sends {C = List String} (FinalizeStatement leaving) (finalize leaving)
finalize-FinalizeStatement_example = finalize-FinalizeStatement leaving

connect-connect_example :
    IsLive (connect start).1
    × IsNumbered (connect start).1.world
    × (connect (connect start).1 ≡ (ok tt, (connect start).1))
unfolding connect connect_held open_session
connect-connect_example = connect-connect start (omega arith, tt) refl

read_identifier-identifier_example :
    read_identifier (identifier "a\"b" ++ " TO x") ≡ some ("a\"b", " TO x")
read_identifier-identifier_example = read_identifier-identifier "a\"b" " TO x" refl refl refl

read_sql_value-quoted_sql_value_example :
    read_sql_value (quoted_sql_value "it's" ++ ";") ≡ some ("it's", ";")
unfolding ends_constant
read_sql_value-quoted_sql_value_example = read_sql_value-quoted_sql_value "it's" ";" refl

read_connect_value-connect_string_value_example :
    read_connect_value (connect_string_value "it's" ++ " port='1'") ≡ some ("it's", " port='1'")
read_connect_value-connect_string_value_example =
    read_connect_value-connect_string_value "it's" " port='1'" refl

validate-IsKnown_example : IsKnown "superuser"
validate-IsKnown_example = validate-IsKnown "superuser"

validate-IsPaired_example : IsPaired "NOLOGIN"
unfolding validate all_valid_role_options to_valid_map all_role_options all_inverted_role_options
    inverted invert cut_prefix has_prefix put_all put contains lookup
validate-IsPaired_example = validate-IsPaired "NOLOGIN" refl

lookup-merge_example :
    lookup "LOGIN" (Options.merge (("LOGIN", true) ∷ []) (("NOLOGIN", false) ∷ []))
    ≡ or_else
        (last_of absolute enabled "LOGIN" ("NOLOGIN" ∷ []))
        (lookup "LOGIN" (Options.clone (("LOGIN", true) ∷ [])))
unfolding Options.to_list
lookup-merge_example = lookup-merge "LOGIN" (("LOGIN", true) ∷ []) (("NOLOGIN", false) ∷ [])

clone-add_absolute_example :
    lookup (absolute "NOLOGIN") (Options.clone (Options.add_absolute [] "NOLOGIN")) ≡ some true
unfolding validate all_valid_role_options to_valid_map all_role_options all_inverted_role_options
    inverted invert cut_prefix has_prefix put_all put contains lookup
clone-add_absolute_example = clone-add_absolute [] "NOLOGIN" refl

unmarshal_yaml-marshal_yaml_example :
    State.unmarshal_yaml (State.marshal_yaml allowed)
    ≡ ok (if allowed.value =ℕ= State.state_absent then absent else present)
unmarshal_yaml-marshal_yaml_example = unmarshal_yaml-marshal_yaml allowed

reconcile_all-reconcile_all_example :
    Slots.AllExist (λ name filled. filled) slots true
    × ((Slot.reconcile_all slots filled_later).1.cluster ≡ true)
    × ((Slot.reconcile_all slots filled_later).1.log ≡ [])
unfolding Slot.reconcile_all Slot.create Slot.exists ◌>>=◌ by_value run_query_exists connect
    connect_held open_session ask run_query_exec send
reconcile_all-reconcile_all_example =
    reconcile_all-reconcile_all (λ name filled. filled) filled-IsSlotServer slots empty_cluster
      filled_later refl refl

reconcile_all-AllExist_example :
    AllExist
      (λ fact filled. filled)
      roles
      (Actions.reconcile_all no_digest roles empty_cluster).1.cluster
unfolding Actions.reconcile_all Actions.reconcile Actions.create Actions.exists
    Actions.reconcile_role_options Actions.reconcile_option Actions.has_options
    Actions.reconcile_set_expiry Actions.reconcile_reset_expiry Actions.reconcile_set_password
    Actions.reconcile_reset_password Actions.has_login_password ◌>>=◌ by_value run_all
    run_query_exists connect connect_held open_session ask run_query_exec send Options.to_list
reconcile_all-AllExist_example =
    reconcile_all-AllExist (λ fact filled. filled) (filled-IsRoleServer PlainStatement) no_digest
      roles empty_cluster roles-AreStored refl
