-- ===== src/Ldap.antt =====
-- The package ldap (pkg/ldap): reading the members of groups from an LDAP directory.
pub mod Credential
pub mod Dn
pub mod Member
pub mod Directory
mod Tests
