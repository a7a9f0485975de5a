-- ===== src/Startup.antt =====
-- The command line: the check of the Node version, what may be written about a failed start, and the
-- order of the steps of `main`.
pub mod NodeVersion
pub mod Diagnostics
pub mod Cli
mod Tests
