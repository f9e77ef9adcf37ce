-- ===== src/Probe/Login.antt =====
-- What the two credentialed probes of internal/probe guarantee: one submission at most, and `up` only
-- for a login that went through.
pub mod MoodleLogin
pub mod CourseLogin
pub mod Requests
