-- ===== src/Webui.antt =====
-- The web console, src/webui/src: its rules, its states and its client.
pub mod Navigation
pub mod Approvals
pub mod Deciding
pub mod Async
pub mod Client
pub mod Requests
pub mod OrderRouting
pub mod Execution
pub mod App
pub mod Packet
pub mod Orders
pub mod Ticket
pub mod RoutingScreen
mod Tests
