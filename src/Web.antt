-- ===== src/Web.antt =====
-- internal/web: the rate limiter, the page, its languages, the public API and the server.
pub mod RateLimit
pub mod ClientIp
pub mod Shown
pub mod View
pub mod Read
pub mod Api
pub mod I18n
pub mod Labels
pub mod Wire
pub mod Exchange
pub mod Server
pub mod Page
