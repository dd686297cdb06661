-- ===== src/Lib.antt =====
-- PGFGA manages the logical objects of a PostgreSQL cluster: roles, users, grants, databases,
-- schemas, extensions and replication slots. It reads a YAML configuration, expands LDAP groups to
-- users, builds the wanted state of the cluster in memory, and sends the statements that bring the
-- cluster in line. This library models the program and proves what it does.
--
-- The parts, and how they work together:
--
-- * Config models internal/config/config.go and internal/version/version.go: the types of the
--   configuration, and NewConfig. The flags, the environment, the file system and YAML are arguments.
-- * Handler models internal/handler/pgfga_handler.go. Handler.antt has NewPgFgaHandler and the steps
--   that the handlers share, Handler/Run the handlers themselves and Handle. `prepare` is the loop
--   over the handlers, from the configuration to the wanted state; `handle` adds Reconcile.
--   Handler/Group is about LDAP groups, across Handler and Ldap.
-- * Ldap models pkg/ldap: Credential (credential.go), Dn (utils.go and member_type.go), Member
--   (member.go, with Heap for what follows pointers and Tree for the tree of memberships) and
--   Directory (config.go and handler.go). A *Member is an address in a heap, since a member is
--   shared by the groups it belongs to. The two regular expressions are one automaton.
-- * Pg models pkg/pg: State (state.go), RoleOption with its child Options (roleoption.go,
--   roleoption_list.go, roleoption_map.go), Quote (utils.go and connectStringValue of
--   conn_param.go; how PostgreSQL reads what is quoted is in Quote/Lexing), ConnParam
--   (conn_param.go), Conn (conn.go), Role (role.go; what is asked of the server is in
--   Role/Actions), Grant (grants.go), Slot (replicationslot.go), Schema (schema.go), Extension
--   (extension.go), Database (database.go) and Handler (handler.go, strict_options.go).
-- * Base, Text and GoMap have what the parts share: results, Go's text functions and Go's maps.
--
-- How the code is read. A Go function of a value and an error gives a Result. A method that talks to
-- the server is an action (Pg.Conn.Act) on an Env: the connection that it was given, and the World,
-- which holds the cluster, the sessions that were opened and closed, and the log of all statements
-- that were sent. An error ends the action and keeps the world as it is then. A Conn that Go passes
-- by value is a copy, and what happens to it is lost (`by_value`); one that is passed as a pointer
-- is the caller's. pgx and the server behind it are the record Server, go-ldap and its servers the
-- record Directory, the operating system and base64 the record System, MD5 the record Digest: no
-- theorem assumes anything of them but what its comment says.
--
-- A Go map is an association list. Go ranges over a map in any order, and the model in the order of
-- the list; the theorems hold for every list. time.Time is its formatted text, or none for the zero
-- time. Log lines, the delay before a run, and the entry point cmd/pgfga/pgfga.go are left out. A
-- session is closed by Close alone: that pgx closes one itself after a fatal error is not modelled.
--
-- Fuel: only the tree of memberships has it, since Go recurses over pointers. The handlers give the
-- number of members and one more; Ldap/Member/Tree/Depth and Handler/Group have why that is enough
-- without a cycle. On a cycle Go overflows its stack, which is the error stack_overflow here.
--
-- What statements an action may send is a property of the log (Pg.Conn.Adds): those that it adds,
-- whether it succeeds or fails, all have the property. Each object has a data type of the statements
-- that suit it, in the module of its laws. The rules there are for every predicate of the world that
-- such statements keep, of which that on the log is one. What holds after an action that succeeded
-- goes by triples (Pg.Conn.Triples), and Pg.Conn.Ensuring has them for the way in which the program
-- asks for an object and creates it. The servers' laws that the modules named Converging rely on are
-- records of hypotheses; Pg.Filled is a server that fulfils them. Tests run small examples.
pub mod Base
pub mod Text
pub mod GoMap
pub mod Pg
pub mod Ldap
pub mod Config
pub mod Handler
