-- ===== src/V1/Mcp.antt =====
-- legacy/v1/src/server/mcp-security.ts: MCPSecurityValidator. Cache has the replay cache, Values what
-- is made of values, Schemas and Message the validation of a message, Requests the other checks.
pub mod Cache
pub mod Values
pub mod Schemas
pub mod Message
pub mod Requests
mod Tests
