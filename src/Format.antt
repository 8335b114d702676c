-- ===== src/Format.antt =====
-- The formatters of frontend/src/features, a module for each feature.
pub mod Duration
pub mod Age
pub mod Payments
pub mod Invoices
pub mod Visitors
pub mod Badges
pub mod Complaints
pub mod Finance
pub mod Rules
pub mod Audit
pub mod Notifications
pub mod Checkouts
pub mod RoomTransfers
