-- ===== src/Auth.antt =====
-- The role that a browser tab works under (frontend/src/auth).
pub mod RoleSession
