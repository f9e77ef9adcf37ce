-- ===== src/Examples.antt =====
-- Concrete runs at which the hypotheses of the theorems hold.
mod Schedule
mod Stored
mod Restart
mod Logins
mod Pages
mod Settings
mod Verify
mod Limits
mod Answers
mod Secrets
mod Lives
mod Reads
mod Retained
