-- ===== src/Mcp.antt =====
-- The tools of src/app/mcp_server/server.py and src/app/mcp_client.
pub mod Server
pub mod Client
pub mod Tests
