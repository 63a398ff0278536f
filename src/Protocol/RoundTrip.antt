-- ===== src/Protocol/RoundTrip.antt =====
-- What is written as JSON by common/src/protocol.cpp and common/include/poker/protocol.h, read back.
pub mod Words
pub mod Client
pub mod Rooms
pub mod Table
pub mod Server
