-- ===== src/Pg/Grant/Tests.antt =====
-- A grant that is made on a cluster that is empty at first.
use pgfga.Base.{All, ◌≡◌, refl, List, [], ◌∷◌}
use pgfga.Base.Result.{ok}
use pgfga.Pg.State.{present}
use pgfga.Pg.Conn.Act.{by_value, ◌>>=◌}
use pgfga.Pg.Conn.Query.{
  run_query_exists, run_query_exec, connect, connect_held, open_session, ask, send,
}
use pgfga.Pg.Role.{zero_role}
use pgfga.Pg.Role.Actions
use pgfga.Pg.Grant.{Grant, grant, exists, ensure_role, ignoring_error, reconcile_all}
use pgfga.Pg.Grant.Converging.{Holds, reconcile_all-AllHold}
use pgfga.Pg.Filled.{filled_server, empty_cluster, filled-IsGrantServer}

abbrev grants : List Grant
grants =
    record {
      grantee = record zero_role { name = "ann" };
      granted = record zero_role { name = "dba" };
      state = present;
    }
    ∷ []

granted_lem : (reconcile_all grants empty_cluster).0 ≡ ok tt
unfolding reconcile_all grant exists ensure_role ignoring_error Actions.create Actions.exists ◌>>=◌
    by_value run_query_exists run_query_exec connect connect_held open_session ask send
granted_lem = refl

reconcile_all-AllHold_example :
    All
      (λ g.
        Holds (λ granted grantee filled. filled) g (reconcile_all grants empty_cluster).1.cluster)
      grants
reconcile_all-AllHold_example =
    reconcile_all-AllHold (λ granted grantee filled. filled) grants (filled-IsGrantServer _)
      empty_cluster granted_lem
