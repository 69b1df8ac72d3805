-- ===== src/Auth.antt =====
-- apps/api/src/auth: `TokenService` of jwt.service.ts in Tokens, `TenantContextMiddleware` beside it,
-- and the handlers of auth.controller.ts in Sessions. Plain is a token
-- library for the examples.
pub mod Slug
pub mod Tokens
pub mod Sessions
mod Plain
mod Tests
