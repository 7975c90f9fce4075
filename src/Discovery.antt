-- ===== src/Discovery.antt =====
-- internal/discovery: how two nodes greet each other, and the peers that a node sees.
pub mod Hello
pub mod Members
