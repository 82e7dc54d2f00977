-- ===== src/Asterix.antt =====
-- src/asterix.h: the ASTERIX CAT240 message, and the reader that src/asterix_parse.c runs over it.
-- The children hold the parser (`Parse`), the wire format it is compared with (`Encode`) and proofs.
pub mod Words
pub mod Message
pub mod Reader
pub mod Fields
pub mod Parse
pub mod Bounds
pub mod Safety
pub mod Reject
pub mod Encode
pub mod Items
pub mod Octet
pub mod Frn
pub mod RoundTrip
mod Tests
