-- ===== src/Pg/Conn.antt =====
-- pkg/pg/conn.go: connections. A function that takes a connection is an action on an `Env`: the
-- connection that it was given, the cluster, and what has been asked of the server so far.
pub mod Act
pub mod Query
pub mod Params
pub mod Keeps
pub mod Adds
pub mod Sessions
pub mod Triples
pub mod Ensuring
