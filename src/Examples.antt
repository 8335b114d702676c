-- ===== src/Examples.antt =====
-- Runs of the code on small inputs, and the theorems at inputs that meet their hypotheses.
mod Access
mod Scope
mod Calls
mod Forms
mod Labels
mod Rooms
mod Wizard
mod Tenants
mod Overview
mod Scoping
mod Dialogs
mod Money
mod Profile
mod AddRoom
mod Desk
mod SignIn
