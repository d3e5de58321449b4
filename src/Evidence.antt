-- ===== src/Evidence.antt =====
-- mcp_gateway/evidence.py: the path from untrusted adapter output to the client.
pub mod Store
pub mod Grammar
pub mod Sanitize
