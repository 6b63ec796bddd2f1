-- ===== src/Admin.antt =====
-- The administration of an organization's teams and members (server/internal/services/admin.go):
-- the operations first, and what they keep in the other modules.
pub mod Teams
pub mod Counts
pub mod LastAdmin
pub mod Managed
pub mod Transfers
pub mod Profiles
pub mod Members
