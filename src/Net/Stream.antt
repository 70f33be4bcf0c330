-- ===== src/Net/Stream.antt =====
-- mudou/net/ProtocolStream.h and .cpp: the wire format between the services.
pub mod Checksum
pub mod SevenBit
pub mod Decimal
pub mod Reader
pub mod Writer
pub mod Message
pub mod Faults
mod Tests
