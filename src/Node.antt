-- ===== src/Node.antt =====
-- internal/node: the node's policies and its handling of tasks and transfers.
pub mod Acl
pub mod Accept
pub mod Inbox
pub mod Transfers
pub mod Config
pub mod Sizes
pub mod Inbound
pub mod Outbound
pub mod Peers
pub mod Tasks
pub mod Dispatch
