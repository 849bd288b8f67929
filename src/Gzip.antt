-- ===== src/Gzip.antt =====
-- gsip/internal/gzip/gunzip.go: reading gzip (RFC 1952) through the DEFLATE decoder.
pub mod Crc
pub mod Sums
pub mod Running
pub mod Consumed
pub mod Started
pub mod Trailer
pub mod Followed
pub mod Ends
pub mod Opens
pub mod Encoded
pub mod RoundTrip
pub mod Fields
pub mod Parses
pub mod Strings
pub mod Errors
pub mod State
pub mod Header
pub mod Members
pub mod Reading
mod Tests
