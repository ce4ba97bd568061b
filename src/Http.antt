-- ===== src/Http.antt =====
-- Requests and responses: include/request_handler.h, src/request_parser.cc,
-- src/response_builder.cc.
pub mod Message
pub mod RequestParser
pub mod ResponseBuilder
pub mod Heads
pub mod Framing
pub mod Serialized
pub mod RequestText
pub mod RequestWords
pub mod RequestReading
mod Tests
