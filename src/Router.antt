-- ===== src/Router.antt =====
-- src/broker/router.ts: the decisions of the broker, one handler for each operation.
pub mod Guards
pub mod Send
pub mod Replies
pub mod Consent
pub mod Inbox
pub mod Log
pub mod Sessions
pub mod Writes
pub mod Machine
pub mod Service
pub mod Claims
pub mod Retries
pub mod Visibility
pub mod Listings
pub mod Digest
pub mod Obligations
pub mod Admission
