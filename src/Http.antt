-- ===== src/Http.antt =====
-- src/http.ts: the HTTP transport. Target has the request target and the bearer token, Routing what the
-- server decides before it authenticates, Admission the counts of requests over time, Adapter the
-- `fetch` that answers an admitted request.
pub mod Target
pub mod Routing
pub mod Admission
pub mod Adapter
mod Tests
