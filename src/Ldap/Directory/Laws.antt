-- ===== src/Ldap/Directory/Laws.antt =====
-- Which server of the directory is bound.
use pgfga.Base.{
  sym, ℕ, zero, suc, String, ◌≡◌, refl, Bool-cases, Option, none, some, List, [], ◌∷◌, ◌++◌, inl,
  inr, map, if◌then◌else◌,
}
use pgfga.Base.Result.{Result, err, failure}
use pgfga.Ldap.Credential.{System}
use pgfga.Ldap.Directory.{
  Directory, Config, Handler, rounds, bind_to, try_servers, try_rounds, connect,
}

-- All attempts in order: every server in the round with number i, then those of the next rounds.
abbrev pub attempts : List String → ℕ → ℕ → List (ℕ × String)
attempts servers zero i = []
attempts servers (suc left) i = map (λ server. (i, server)) servers ++ attempts servers left (suc i)

-- The first attempt that reaches a server.
abbrev pub first_reached : Directory → List (ℕ × String) → Option String
first_reached dir [] = none
first_reached dir ((i, server) ∷ rest) =
    if dir.dials i server then some server else first_reached dir rest

abbrev pub bound_first : System → Directory → Config → Option String → Result String
bound_first sys dir c none = err (failure "none of the ldap servers are available")
bound_first sys dir c (some server) = bind_to sys dir c server

module _ (sys : System) (dir : Directory) (c : Config) where
  try_servers-first_reached :
      (i : ℕ) (servers : List String) (rest : List (ℕ × String)) (other : Result String)
      → bound_first sys dir c (first_reached dir rest) ≡ other
      → elim (try_servers sys dir c i servers) [ some r ↦ r | none ↦ other ]
        ≡ bound_first sys dir c (first_reached dir (map (λ server. (i, server)) servers ++ rest))
  unfolding try_servers
  try_servers-first_reached i [] rest other e = sym e
  try_servers-first_reached i (server ∷ servers) rest other e =
      elim (Bool-cases (dir.dials i server)) [
        | inl reached ↦ rw reached refl
        | inr missed ↦ rw missed (try_servers-first_reached i servers rest other e)
      ]

  try_rounds-first_reached :
      (left i : ℕ)
      → try_rounds sys dir c left i
        ≡ bound_first sys dir c (first_reached dir (attempts c.servers left i))
  unfolding try_rounds
  try_rounds-first_reached zero i = refl
  try_rounds-first_reached (suc left) i =
      try_servers-first_reached i c.servers (attempts c.servers left (suc i)) _
        (sym (try_rounds-first_reached left (suc i)))

-- Without an open connection, the result of connect is that of binding to the first server reached,
-- going through all servers in their order, as often as the retries say; it is an error if none is
-- reached.
pub connect-first_reached :
    (sys : System) (dir : Directory) (lh : Handler)
    → lh.conn ≡ none
    → connect sys dir lh
      ≡ bound_first sys dir lh.config
          (first_reached dir (attempts lh.config.servers (rounds lh.config.max_retries) 0))
unfolding connect
connect-first_reached sys dir lh unconnected =
    rw unconnected (try_rounds-first_reached sys dir lh.config (rounds lh.config.max_retries) 0)
