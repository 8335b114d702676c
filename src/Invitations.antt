-- ===== src/Invitations.antt =====
-- frontend/src/features/tenant-invitations/form.ts: the form of a tenant's invitation. A text that
-- the form walks is the list of its UTF-16 units.
pub mod Chars
pub mod Phone
pub mod Email
pub mod Form
pub mod Activation
pub mod Page
