-- ===== src/Config.antt =====
-- The nginx-style configuration parser (src/config_parser.cc, include/config_parser.h).
pub mod Syntax
pub mod Lexer
pub mod Parser
mod Run
pub mod Printable
mod Lexing
mod Statements
mod Levels
pub mod RoundTrip
mod LexerSound
mod Invariant
mod Sound
mod Tests
