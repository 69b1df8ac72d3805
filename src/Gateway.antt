-- ===== src/Gateway.antt =====
-- The collector gateway: `Credential` is apps/collector-gateway/src/auth.ts, `Enrollment` the
-- enrollment route of apps/collector-gateway/src/main.ts, and `Revocation` the handler of
-- apps/api/src/agents/agents.controller.ts that takes a credential back.
pub mod Credential
pub mod Enrollment
pub mod Revocation
pub mod Minting
pub mod Protocol
pub mod Routes
mod Tests
