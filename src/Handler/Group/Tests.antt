-- ===== src/Handler/Group/Tests.antt =====
-- Instances of the theorems on LDAP groups, at a directory with one group and one user.
use pgfga.Base.{ℕ, zero, suc, ◌≡◌, true, false, none, some, Bool, List, [], ◌∷◌, arith}
use pgfga.Base.Result.{Result, ok, err, failure}
use pgfga.GoMap.{contains, lookup, put}
use pgfga.Text.{split, has_prefix}
use pgfga.Pg.State.{present}
use pgfga.Ldap.Credential.{System, Credential}
use pgfga.Ldap.Directory
use pgfga.Ldap.Directory.{Directory, get_members, pos, connect, add_entries, add_members}
use pgfga.Ldap.Dn.{valid_dn, valid_ldap_pair, scan, next_mode, accepts, get_member_type}
use pgfga.Ldap.Member.{new_member, set_from_id, set_m_type}
use pgfga.Ldap.Member.Heap.{get_by_id, add_parent, set_type_at}
use pgfga.Ldap.Member.Tree.{Membership}
use pgfga.Ldap.Member.Tree.Fuel.{IsRanked}
use pgfga.Config.{FgaUserConfig}
use pgfga.Handler.{PgFgaHandler}
use pgfga.Handler.Run.{tree_of, handle_ldap_group}
use pgfga.Handler.Group.{IsTree, tree_of-IsTree}

abbrev no_system : System
no_system = record {
  lstat = λ file. err (failure file);
  run = λ file. none;
  read_file = λ file. err (failure file);
  decode_base64 = λ text. err (failure text);
}

abbrev one_group : Directory
one_group = record {
  dials = λ i server. true;
  bind = λ server usr pwd. none;
  search =
      λ server base_dn filter. ok (record { dn = "cn=dba,dc=org"; member_uids = "ann" ∷ [] } ∷ []);
}

abbrev unset : Credential
unset = record { value = ""; file = ""; base64 = false }

abbrev user_config : FgaUserConfig
user_config = record {
  auth = "ldap-group";
  base_dn = "cn=all,dc=org";
  filter = "(cn=*)";
  member_of = "opex" ∷ [];
  options = [];
  expiry = none;
  password = "";
  state = present;
}

-- The connection is open.
abbrev connected : Directory.Handler
connected = record {
  config = record { usr = unset; pwd = unset; servers = []; max_retries = pos 1 };
  conn = some "ldap1";
  graph = record { heap = []; members = [] };
}

abbrev start : PgFgaHandler
start = record {
  pg = record {
    default_db = "";
    connections = [];
    strict_options = record { users = false; databases = false; extensions = false; slots = false };
    databases = [];
    roles = [];
    grants = [];
    slots = [];
  };
  ldap = connected;
}

abbrev value_or {ℓ} : {A : Type ℓ} → A → Result A → A
value_or other (ok a) = a
value_or other (err e) = other

abbrev found : Directory.Handler × ℕ
found = value_or (connected, 0) (get_members no_system one_group connected "cn=all,dc=org" "(cn=*)")

abbrev is_ok {ℓ} : {A : Type ℓ} → Result A → Bool
is_ok (ok a) = true
is_ok (err e) = false

abbrev rank : ℕ → ℕ
rank zero = 2
rank (suc zero) = 1
rank (suc (suc a)) = 0

found-IsRanked : IsRanked rank found.0.graph.heap
unfolding get_members connect get_by_id new_member set_from_id valid_dn scan next_mode accepts
    get_member_type add_entries add_members add_parent set_type_at set_m_type lookup put contains
    split has_prefix valid_ldap_pair
found-IsRanked zero = (omega arith, tt)
found-IsRanked (suc zero) = (omega arith, tt)
found-IsRanked (suc (suc zero)) = tt
found-IsRanked (suc (suc (suc a))) = tt

tree_of-IsTree_example :
    (mss : List Membership) × (tree_of found.0 found.1 ≡ ok mss)
    × IsTree found.0.graph.heap found.1 mss
tree_of-IsTree_example = tree_of-IsTree rank found.0 found-IsRanked found.1

abbrev handled : PgFgaHandler
handled = value_or start (handle_ldap_group no_system one_group user_config "dbas" [] start)
