-- ===== src/Access.antt =====
-- z2c/src/authz, z2c/src/service/security.ts and z2c/src/core/workspaces/registry.ts: who may use
-- the GLM service, which workspaces and which sessions.
pub mod Clients
pub mod Workspaces
pub mod Grants
pub mod Sessions
pub mod Secrets
