-- ===== src/Packets.antt =====
-- packets/: the wire format of MQTT 3.1.1 control packets.
pub mod Result
pub mod Codec
pub mod Header
pub mod Packet
pub mod Write
pub mod Unpack
pub mod Read
pub mod Consume
pub mod Typed
pub mod RoundTrip
pub mod Malformed
pub mod Totality
pub mod Validate
mod Tests
