-- ===== src/Routes.antt =====
-- apps/api/app/routes
pub mod Alerts
pub mod Auth
pub mod Assistant
pub mod Chat
pub mod Runbooks
pub mod Trail
