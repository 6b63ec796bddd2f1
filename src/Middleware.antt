-- ===== src/Middleware.antt =====
-- The guards that the routes put in front of the handlers (server/internal/middleware).
pub mod RateLimit
pub mod Window
