-- ===== src/Ldap/Tests.antt =====
-- Runs of the package ldap on small examples, and instances of its theorems.
use pgfga.Base.{
  All, ◌=ℕ=◌, ℕ, zero, suc, arith, ◌≡◌, refl, true, false, none, some, List, [], ◌∷◌, ◌==◌,
  if◌then◌else◌,
}
use pgfga.Base.Result.{ok, err, failure}
use pgfga.Ldap.Credential.{System, Credential, get_cred, load_value, from_file, is_executable}
use pgfga.Ldap.Credential.Laws.{get_cred-get_cred}
use pgfga.Ldap.Dn.{valid_dn, valid_ldap_pair, scan, next_mode, accepts}
use pgfga.Ldap.Dn.Laws.{valid_ldap_pair-valid_dn}
use pgfga.Ldap.Member.{zero_member}
use pgfga.Ldap.Member.Heap.{Heap, at}
use pgfga.Ldap.Member.Tree.{join_children, Membership, membership_tree}
use pgfga.Ldap.Member.Tree.Members.{Below, InTree, membership_tree-Below}
use pgfga.Ldap.Member.Tree.Fuel.{IsRanked, membership_tree-Done}
use pgfga.Ldap.Directory.{Directory, Handler, pos, rounds, connect}
use pgfga.Ldap.Directory.Laws.{attempts, first_reached, bound_first, connect-first_reached}

-- Files hold their own names, and nothing is executable.
abbrev pub files : System
files = record {
  lstat = λ file. ok 0o644;
  run = λ file. none;
  read_file = λ file. ok file;
  decode_base64 = λ text. ok text;
}

abbrev pub no_files : System
no_files = record {
  lstat = λ file. err (failure file);
  run = λ file. none;
  read_file = λ file. err (failure file);
  decode_base64 = λ text. err (failure text);
}

abbrev in_file : Credential
in_file = record { value = ""; file = "secret"; base64 = true }

get_cred-get_cred_example :
    (("secret" == "") ≡ false)
    × (get_cred no_files (get_cred files in_file).1 ≡ (ok "secret", (get_cred files in_file).1))
unfolding get_cred load_value from_file is_executable
get_cred-get_cred_example = get_cred-get_cred files no_files in_file "secret" refl

valid_ldap_pair-valid_dn_example : valid_dn "cn=dba" ≡ true
unfolding valid_ldap_pair scan next_mode accepts
valid_ldap_pair-valid_dn_example = valid_ldap_pair-valid_dn "cn=dba" refl

-- A group of two users.
abbrev group_heap : Heap
group_heap =
    record zero_member { name = "dba"; children = ("ann", 1) ∷ ("bob", 2) ∷ [] }
    ∷ record zero_member { name = "ann" }
    ∷ record zero_member { name = "bob" }
    ∷ []

abbrev group_rank : ℕ → ℕ
group_rank zero = 1
group_rank (suc a) = 0

group_heap-IsRanked : IsRanked group_rank group_heap
group_heap-IsRanked zero = (omega arith, (omega arith, tt))
group_heap-IsRanked (suc zero) = tt
group_heap-IsRanked (suc (suc zero)) = tt
group_heap-IsRanked (suc (suc (suc a))) = tt

membership_tree-Done_example :
    (mss : List Membership) × (membership_tree 2 group_heap (at group_heap 0) ≡ some mss)
membership_tree-Done_example =
    membership_tree-Done group_rank group_heap group_heap-IsRanked 2 0 (omega arith)

abbrev group_tree : List Membership
group_tree =
    record { member = 1; member_of = at group_heap 0 }
    ∷ record { member = 2; member_of = at group_heap 0 }
    ∷ []

membership_tree-Below_example :
    All (λ ms. Below group_heap (at group_heap 0) ms.member) group_tree
    × ((d : ℕ) → Below group_heap (at group_heap 0) d → InTree d group_tree)
unfolding membership_tree join_children
membership_tree-Below_example = membership_tree-Below 2 group_heap (at group_heap 0) group_tree refl

-- The first server is never reached, the second one from the second round on.
abbrev pub second_round : Directory
second_round = record {
  dials = λ i server. if server == "ldap2" then (if i =ℕ= 1 then true else false) else false;
  bind = λ server usr pwd. none;
  search = λ server base_dn filter. ok [];
}

abbrev unconnected : Handler
unconnected = record {
  config = record {
    usr = in_file;
    pwd = in_file;
    servers = "ldap1" ∷ "ldap2" ∷ [];
    max_retries = pos 2;
  };
  conn = none;
  graph = record { heap = []; members = [] };
}

connect-first_reached_example :
    connect files second_round unconnected
    ≡ bound_first files second_round unconnected.config (
        first_reached second_round
          (attempts unconnected.config.servers (rounds unconnected.config.max_retries) 0))
connect-first_reached_example = connect-first_reached files second_round unconnected refl
