-- ===== src/Events.antt =====
-- backend/msm/events: the events, sequences of steps that act on a server.
pub mod Engine
pub mod Actions
mod Tests
