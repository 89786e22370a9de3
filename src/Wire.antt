-- ===== src/Wire.antt =====
-- The packet codec, corev5/v2/message.
pub mod Codes
pub mod Slice
pub mod VarInt
pub mod Strings
pub mod Header
pub mod Ack
pub mod Publish
pub mod Request
pub mod Subscribe
pub mod Unsubscribe
pub mod Suback
pub mod Disconnect
mod Tests
