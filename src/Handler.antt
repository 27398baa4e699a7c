-- ===== src/Handler.antt =====
-- The HTTP layer, internal/handler: validation, responses and the handlers over the service.
pub mod Validator
pub mod Requests
pub mod Responses
pub mod Body
pub mod Handlers
pub mod Posts
pub mod Validation
mod Tests
