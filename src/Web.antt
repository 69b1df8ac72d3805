-- ===== src/Web.antt =====
-- apps/web/src: what the web application does beside its realtime client, in lib and in the pages of a
-- ticket and of an incident.
pub mod Api
pub mod Status
pub mod TicketPage
pub mod IncidentPage
mod Tests
