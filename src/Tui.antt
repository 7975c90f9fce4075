-- ===== src/Tui.antt =====
-- internal/tui: the state machines of the terminal interface, without what they draw.
pub mod Paths
pub mod Tab
pub mod Browsing
pub mod Peers
pub mod Fields
pub mod Settings
pub mod Cmdbar
pub mod Tokens
pub mod Press
pub mod History
pub mod Dashboard
pub mod App
pub mod Landing
pub mod Welcome
