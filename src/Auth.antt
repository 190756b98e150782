-- ===== src/Auth.antt =====
-- src/modules/auth: registration by a code, sessions with rotating refresh tokens, password reset and
-- portal access. A row's timestamps are milliseconds; identifiers that the database draws, the clock and
-- random values are arguments.
pub mod Store
pub mod Registration
pub mod Session
pub mod Reset
pub mod Codes
pub mod Rotation
pub mod Recovery
