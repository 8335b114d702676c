-- ===== src/Properties.antt =====
-- frontend/src/features/properties: the properties a user is a member of, and the active one.
pub mod Types
pub mod Storage
pub mod Provider
