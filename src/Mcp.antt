-- ===== src/Mcp.antt =====
-- runeguard/mcp: the server that offers guarded tools, the proxy in front of another server, and
-- the inspection of server settings.
pub mod Inspecting
pub mod Messages
pub mod Server
pub mod Cleared
pub mod Serving
pub mod Proxy
pub mod Checking
pub mod Addresses
pub mod Forwarding
pub mod Client
pub mod Relaying
