-- ===== src/V1.antt =====
-- The first version of the server, under legacy/v1. Redis, otplib and zod are parameters.
pub mod Actions
pub mod Redis
pub mod Lock
pub mod RateLimiter
pub mod Blacklist
pub mod Jwt
pub mod Mcp
pub mod Totp
