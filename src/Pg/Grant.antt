-- ===== src/Pg/Grant.antt =====
-- pkg/pg/grants.go: the grants of roles to roles.
pub mod Laws
pub mod Converging
mod Tests
use Prim.Native.String.{◌++◌}
use pgfga.Base.{String, Bool, List, [], ◌∷◌, ◌=ℕ=◌, if◌then◌else◌}
use pgfga.Base.Result.{absent_granted}
use pgfga.Pg.State.{State, present, absent, ◌=S=◌}
use pgfga.Pg.Quote.{identifier}
use pgfga.Pg.Server.{Server}
use pgfga.Pg.Conn.Act.{Act, raise, by_value, done, ◌>>=◌, ◌>>◌}
use pgfga.Pg.Conn.Query.{run_query_exists, run_query_exec}
use pgfga.Pg.Role.{Role}
use pgfga.Pg.Role.Actions

pub record Grant : Type 0 where
  pub grantee : Role
  pub granted : Role
  pub state : State

-- Grant.String
unfoldable pub to_string : Grant → String
to_string g = "grant of role " ++ (g.granted.name ++ (" to role " ++ g.grantee.name))

abbrev pub member_query : String
member_query =
    "select granted.rolname granted_Role \n\t\tfrom pg_auth_members auth inner join pg_Roles \n\t\tgranted on auth.Roleid = granted.oid inner join pg_Roles \n\t\tgrantee on auth.member = grantee.oid where \n\t\tgranted.rolname = $1 and grantee.rolname = $2"

abbrev pub grant_sql : String → String → String
grant_sql granted grantee = "GRANT " ++ (identifier granted ++ (" TO " ++ identifier grantee))

abbrev pub revoke_sql : String → String → String
revoke_sql granted grantee = "REVOKE " ++ (identifier granted ++ (" FROM " ++ identifier grantee))

module _ {C : Type 0} ⦃srv : Server C⦄ where
  -- Grant.exists
  unfoldable pub exists : Grant → Act C Bool
  exists g = by_value (run_query_exists member_query (g.granted.name ∷ g.grantee.name ∷ []))

  -- the body of the loop over the two roles of a grant
  unfoldable pub ensure_role : Role → Act C (Unit {0})
  ensure_role role =
      if role.state =S= absent then raise (absent_granted role.name) else Actions.create role

  -- A call whose error is not looked at.
  unfoldable pub ignoring_error : Act C (Unit {0}) → Act C (Unit {0})
  ignoring_error m e = done (m e).1

  -- Grant.grant
  unfoldable pub grant : Grant → Act C (Unit {0})
  grant g =
      if g.state =S= absent
      then done
      else by_value do
        found ← exists g
        if found then done else do
          ensure_role g.granted
          ensure_role g.grantee
          ignoring_error (Actions.create g.granted)
          run_query_exec (grant_sql g.granted.name g.grantee.name) []

  -- Grant.revoke
  unfoldable pub revoke : Grant → Act C (Unit {0})
  revoke g =
      if g.state =S= present
      then done
      else by_value do
        found ← exists g
        if found then run_query_exec (revoke_sql g.granted.name g.grantee.name) [] else done

  -- Grants.reconcile
  unfoldable pub reconcile_all : List Grant → Act C (Unit {0})
  reconcile_all [] = done
  reconcile_all (g ∷ gs) = grant g >> reconcile_all gs

  -- Grants.finalize
  unfoldable pub finalize_all : List Grant → Act C (Unit {0})
  finalize_all [] = done
  finalize_all (g ∷ gs) = revoke g >> finalize_all gs
