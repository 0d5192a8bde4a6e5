-- ===== src/Http.antt =====
-- The http folder.
pub mod Headers
pub mod Method
pub mod Status
pub mod Wire
pub mod Request
pub mod Response
pub mod Parser
pub mod Session
pub mod Server
pub mod Servlet
pub mod Client
pub mod Pool
