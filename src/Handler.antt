-- ===== src/Handler.antt =====
-- The request handlers: src/request_handler_api.cc, src/request_handler_file.cc and those with a
-- fixed answer.
pub mod Api
pub mod Calls
pub mod File
pub mod Fixed
pub mod Crud
pub mod RoundTrip
pub mod Containment
pub mod Answers
pub mod Segments
pub mod Requests
pub mod Listing
mod Tests
