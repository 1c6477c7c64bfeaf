-- ===== src/Credentials.antt =====
-- credentials: reviewer credentials.
pub mod Dates
pub mod Checks
pub mod Verify
pub mod Issue
pub mod Issued
pub mod Presentation
pub mod Entitled
pub mod Accepted
pub mod Challenges
