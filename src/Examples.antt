-- ===== src/Examples.antt =====
-- Runs of the models on small states, which show that the theorems' conditions can hold.
pub mod Mailboxes
pub mod Roster
pub mod Directories
pub mod Desk
pub mod Names
pub mod Wire
pub mod Screens
pub mod Hub
pub mod Thread
pub mod Outage
pub mod Mail
