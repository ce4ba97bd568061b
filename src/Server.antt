-- ===== src/Server.antt =====
-- The server: src/server_main_utils.cc, src/handler_registry.cc, src/handler_factory.cc,
-- src/request_dispatcher.cc, src/session.cc.
pub mod Location
pub mod Registry
pub mod Dispatcher
pub mod Matching
pub mod Startup
pub mod Registration
pub mod Routing
pub mod Session
pub mod Connection
pub mod Accept
pub mod Tally
pub mod AcceptLoop
pub mod Isolation
pub mod Progress
pub mod Exchange
pub mod Launch
pub mod Metrics
pub mod Ports
pub mod Answers
pub mod Entities
pub mod Traffic
pub mod Outlasting
pub mod Removal
pub mod ConfigText
mod ConfigReading
pub mod Deployed
mod Tests
