-- ===== src/Handler/Tests/Whole.antt =====
-- A whole run on a cluster that is empty at first, and instances of the theorems on whole runs.
use pgfga.Base.{All, ◌≡◌, refl, none, [], ◌∷◌}
use pgfga.Base.Result.{ok}
use pgfga.GoMap.{lookup, put, put_all, contains}
use pgfga.Text.{has_prefix, cut_prefix, drop_prefix}
use pgfga.Pg.State.{present}
use pgfga.Pg.RoleOption.{absolute, enabled, invert}
use pgfga.Pg.RoleOption.Options.{
  validate, all_role_options, all_inverted_role_options, inverted, all_valid_role_options,
  to_valid_map, add_absolute,
}
use pgfga.Pg.Conn.Act
use pgfga.Pg.Conn.Act.{new_conn, on_conn, run_all, by_value}
use pgfga.Pg.Conn.Query.{
  run_query_exists, run_query_exec, connect, connect_held, open_session, ask, send, switch_db,
  close,
}
use pgfga.Pg.Role.{add_role, merge, clone, new_role}
use pgfga.Pg.Role.Actions
use pgfga.Pg.Grant
use pgfga.Pg.Database
use pgfga.Pg.Slot
use pgfga.Pg.RoleOption.Options as RoleOptions
use pgfga.Pg.Conn.Params.{db_name, as_conns}
use pgfga.Pg.Filled.{
  filled_server, empty_cluster, filled-IsRoleServer, filled-IsGrantServer, filled-IsDatabaseServer,
  filled-IsSlotServer,
}
use pgfga.Pg.Database.Converging.{AllCreated}
use pgfga.Pg.Slot.Converging as Slots
use pgfga.Pg.Grant.Converging.{Holds}
use pgfga.Pg.Role.Facts.{AllExist}
use pgfga.Pg.Fixture.{names_server, no_digest}
use pgfga.Pg.Handler
use pgfga.Pg.Handler.{set_defaults, get_primary_connection, get_role, new_pg_handler}
use pgfga.Pg.ConnParam
use pgfga.Config.{FgaConfig}
use pgfga.Handler.{
  grant_all, set_role, PgFgaHandler, new_pg_fga_handler, user_options, role_options,
}
use pgfga.Handler.Run.{
  handle_roles, handle_users, handle_auth, handle_databases, handle_db_role, update_role,
  handle_db_roles, prepare, handle,
}
use pgfga.Handler.Handled.{handle-AllExist, handle-AllHold, handle-AllCreated}
use pgfga.Handler.Tests.{no_system, no_directory, process, config, value_or, empty}

-- A run with a role that is granted another, a database and a slot, on a cluster that is empty at first.
abbrev small : FgaConfig
small = record config {
  dbs_config =
      (
        "shop",
        record { name = ""; owner = "dba"; extensions = none; schemas = none; state = present },
      )
      ∷ [];
  user_config = [];
  roles = ("dba", record { options = "LOGIN" ∷ []; member_of = "opex" ∷ []; state = present }) ∷ [];
}

abbrev small_made : PgFgaHandler
small_made = value_or empty (new_pg_fga_handler process small)

small_lem : new_pg_fga_handler process small ≡ ok small_made
unfolding new_pg_fga_handler new_pg_handler db_name as_conns lookup new_conn ConnParam.clone put_all
    put
small_lem = refl

handled_lem : (handle no_system no_directory no_digest small small_made empty_cluster).0 ≡ ok tt
unfolding handle prepare handle_roles role_options handle_users user_options handle_auth
    handle_databases handle_db_roles validate contains lookup all_valid_role_options to_valid_map
    put_all all_role_options all_inverted_role_options inverted put invert cut_prefix has_prefix
    new_pg_fga_handler new_pg_handler db_name as_conns new_conn ConnParam.clone Handler.reconcile
    get_primary_connection set_role get_role on_conn run_all Act.◌>>=◌ Actions.reconcile_all
    add_role merge clone RoleOptions.merge RoleOptions.clone RoleOptions.to_list absolute enabled
    new_role Actions.reconcile Actions.create by_value Actions.exists run_query_exists
    run_query_exec connect connect_held open_session ask send Actions.reconcile_role_options
    Actions.reconcile_option Actions.has_options Actions.reconcile_set_expiry
    Actions.reconcile_reset_expiry Actions.reconcile_set_password Actions.reconcile_reset_password
    Actions.has_login_password Actions.hashed_password Grant.reconcile_all Database.reconcile_all
    Slot.reconcile_all RoleOptions.is_enabled switch_db drop_prefix set_defaults grant_all
    Handler.grant Grant.grant Grant.exists Grant.ensure_role Grant.ignoring_error handle_db_role
    update_role Database.get_owner Database.collect Database.exists Database.create
    Database.reconcile_owner Database.grant_each Database.grant_missing
    Database.reconcile_read_only_grants Database.reconcile_read_write_grants
    Database.reconcile_extensions Database.reconcile_schemas Database.deferring
    Database.reconcile_db_con Database.reconcile close Slot.create Slot.exists
    RoleOptions.add_absolute RoleOptions.absolute_merge
handled_lem = refl

handle-AllExist_example :
    (result : PgFgaHandler) × (prepare no_system no_directory small small_made ≡ ok result)
    × AllExist
        (λ fact filled. filled)
        result.pg.roles
        (handle no_system no_directory no_digest small small_made empty_cluster).1.cluster
handle-AllExist_example =
    handle-AllExist process no_system no_directory no_digest small small_made
      (λ fact filled. filled) (λ s. filled-IsRoleServer _) empty_cluster small_lem handled_lem

handle-AllHold_example :
    (result : PgFgaHandler) × (prepare no_system no_directory small small_made ≡ ok result)
    × All
        (λ g.
          Holds
            (λ granted grantee filled. filled)
            g
            (handle no_system no_directory no_digest small small_made empty_cluster).1.cluster)
        result.pg.grants
handle-AllHold_example =
    handle-AllHold no_system no_directory no_digest small small_made
      (λ granted grantee filled. filled) (λ s. filled-IsGrantServer _) empty_cluster handled_lem

handle-AllCreated_example :
    (result : PgFgaHandler) × (prepare no_system no_directory small small_made ≡ ok result)
    × AllCreated
        (λ name filled. filled)
        result.pg.databases
        (handle no_system no_directory no_digest small small_made empty_cluster).1.cluster
    × Slots.AllExist
        (λ name filled. filled)
        result.pg.slots
        (handle no_system no_directory no_digest small small_made empty_cluster).1.cluster
handle-AllCreated_example =
    handle-AllCreated no_system no_directory no_digest small small_made (λ name filled. filled)
      (λ name filled. filled) (λ s. filled-IsDatabaseServer _) filled-IsSlotServer empty_cluster
      handled_lem
