-- ===== src/Auth.antt =====
-- Who may call the gateway: tokens (pkg/auth), the limit on failed logins, the check of every
-- request, and the headers for browsers (pkg/middleware).
pub mod Manager
pub mod Limiter
pub mod Gate
pub mod Cors
pub mod Login
pub mod Tests
