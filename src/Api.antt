-- ===== src/Api.antt =====
-- The HTTP handlers under api/routes/. The user of a request is a parameter: AuthMiddleware has
-- checked the token.
pub mod User
pub mod Notifications
pub mod Catalog
pub mod Ingest
pub mod Preferences
pub mod Subscriptions
pub mod ScheduledEvents
pub mod SendTest
mod Tests
