-- ===== src/Ldap/Directory.antt =====
-- pkg/ldap/config.go and handler.go: the connection to the directory, and GetMembers.
pub mod Laws
use pgfga.Base.{ℕ, zero, suc, String, Bool, true, false, Option, none, some, List, [], ◌∷◌}
use pgfga.Base.Result.{Error, Result, ok, err, failure, ◌>>=◌}
use pgfga.Ldap.Dn.{user_m_type}
use pgfga.Ldap.Member.Heap.{Heap, Graph, get_by_id, add_parent, set_type_at}
use pgfga.Ldap.Credential.{System, Credential, get_cred}

-- An entry of a search result: its DN and its values of memberUid.
pub record Entry : Type 0 where
  pub dn : String
  pub member_uids : List String

-- The go-ldap client and the servers behind it: whether the n-th round reaches a server, the error
-- of a bind, and the result of a search below a base DN with a filter.
pub record Directory : Type 0 where
  pub dials : ℕ → String → Bool
  pub bind : String → String → String → Option Error
  pub search : String → String → String → Result (List Entry)

-- An int as it stands in the configuration: `negsuc n` is -(n + 1).
pub data ℤ : Type 0 where
  pos : ℕ → ℤ
  negsuc : ℕ → ℤ

pub record Config : Type 0 where
  pub usr : Credential
  pub pwd : Credential
  pub servers : List String
  pub max_retries : ℤ

abbrev pub at_least_one : ℤ → ℤ
at_least_one (pos zero) = pos 1
at_least_one (pos (suc n)) = pos (suc n)
at_least_one (negsuc n) = pos 1

-- Config.setDefaults
unfoldable pub set_defaults : Config → Config
set_defaults c = record c { max_retries = at_least_one c.max_retries }

-- `conn` is the server that the open connection leads to, or none for nil.
pub record Handler : Type 0 where
  pub config : Config
  pub conn : Option String
  pub graph : Graph

-- NewLdapHandler
unfoldable pub new_ldap_handler : Config → Handler
unfolding set_defaults
new_ldap_handler config = record {
  config = set_defaults config;
  conn = none;
  graph = record { heap = []; members = [] };
}

abbrev pub rounds : ℤ → ℕ
rounds (pos n) = n
rounds (negsuc n) = 0

module _ (sys : System) (dir : Directory) where
  -- Config.user and Config.password work on a copy of the configuration
  unfoldable pub user : Config → Result String
  user c = (get_cred sys c.usr).0

  unfoldable pub password : Config → Result String
  password c = (get_cred sys c.pwd).0

  abbrev bound : Option Error → String → Result String
  bound none server = ok server
  bound (some e) server = err e

  -- what follows a dial that succeeded
  unfoldable pub bind_to : Config → String → Result String
  unfolding user password
  bind_to c server = do usr ← user c; pwd ← password c; bound (dir.bind server usr pwd) server

  -- the loop over the servers in one round: none if no server could be dialled
  unfoldable pub try_servers : Config → ℕ → List String → Option (Result String)
  try_servers c i [] = none
  try_servers c i (server ∷ servers) = elim (dir.dials i server) [
    | true ↦ some (bind_to c server)
    | false ↦ try_servers c i servers
  ]

  -- the loop over the rounds: `left` of them, the next one with number i
  unfoldable pub try_rounds : Config → ℕ → ℕ → Result String
  try_rounds c zero i = err (failure "none of the ldap servers are available")
  try_rounds c (suc left) i = elim (try_servers c i c.servers) [
    | some r ↦ r
    | none ↦ try_rounds c left (suc i)
  ]

  -- Handler.connect, which gives the server that the connection leads to
  unfoldable pub connect : Handler → Result String
  connect lh = elim lh.conn [
    | some server ↦ ok server
    | none ↦ try_rounds lh.config (rounds lh.config.max_retries) 0
  ]

  -- the loop over the memberUid values of an entry
  unfoldable pub add_members : Graph → ℕ → List String → Result Graph
  add_members g group [] = ok g
  add_members g group (member_uid ∷ member_uids) = do
    (g', member) ← get_by_id g member_uid true
    heap ← set_type_at (add_parent g'.heap member group) member user_m_type
    add_members (record g' { heap = heap }) group member_uids

  -- the loop over the entries that the search found
  unfoldable pub add_entries : Graph → ℕ → List Entry → Result Graph
  add_entries g base_group [] = ok g
  add_entries g base_group (entry ∷ entries) = do
    (g', group) ← get_by_id g entry.dn true
    g'' ←
        add_members (record g' { heap = add_parent g'.heap group base_group }) group
          entry.member_uids
    add_entries g'' base_group entries

  -- Handler.GetMembers: the receiver is a copy, so that the connection is lost and the map of
  -- members, which is a reference, is kept
  unfoldable pub get_members : Handler → String → String → Result (Handler × ℕ)
  get_members lh base_dn filter = do
    server ← connect lh
    (g, base_group) ← get_by_id lh.graph base_dn true
    entries ← dir.search server base_dn filter
    g' ← add_entries g base_group entries
    ok (record lh { graph = g' }, base_group)
