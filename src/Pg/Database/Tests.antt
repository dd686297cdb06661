-- ===== src/Pg/Database/Tests.antt =====
-- A database that is created on a cluster that is empty at first.
use pgfga.Base.{◌≡◌, refl, none, [], ◌∷◌}
use pgfga.Base.Result.{ok}
use pgfga.GoMap.{lookup, put}
use pgfga.Pg.State.{present}
use pgfga.Pg.Conn.Act.{by_value, on_conn, run_all, ◌>>=◌}
use pgfga.Pg.Conn.Query.{
  run_query_exists, run_query_exec, connect, connect_held, open_session, ask, send, switch_db,
  close,
}
use pgfga.Pg.Role.{new_role}
use pgfga.Pg.Role.Actions
use pgfga.Pg.Database.{
  Databases, get_owner, collect, exists, create, reconcile_owner, grant_each, grant_missing,
  reconcile_read_only_grants, reconcile_read_write_grants, reconcile_extensions, reconcile_schemas,
  deferring, reconcile_db_con, reconcile, reconcile_all,
}
use pgfga.Pg.Database.Converging.{AllCreated, reconcile_all-AllCreated}
use pgfga.Pg.Filled.{filled_server, empty_cluster, filled-IsDatabaseServer}

abbrev databases : Databases
databases =
    (
      "shop",
      record { name = ""; owner = "ann"; extensions = none; schemas = none; state = present },
    )
    ∷ []

created_lem : (reconcile_all databases empty_cluster).0 ≡ ok tt
unfolding get_owner collect exists create reconcile_owner grant_each grant_missing
    reconcile_read_only_grants reconcile_read_write_grants reconcile_extensions reconcile_schemas
    deferring reconcile_db_con reconcile reconcile_all Actions.create Actions.exists ◌>>=◌ by_value
    on_conn run_all run_query_exists run_query_exec connect connect_held open_session ask send
    switch_db close new_role lookup put
created_lem = refl

reconcile_all-AllCreated_example :
    AllCreated (λ name filled. filled) databases (reconcile_all databases empty_cluster).1.cluster
reconcile_all-AllCreated_example =
    reconcile_all-AllCreated (λ name filled. filled) databases (filled-IsDatabaseServer _)
      empty_cluster created_lem
