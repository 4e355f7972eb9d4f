-- ===== src/Spa.antt =====
-- fkospa: the SPA protocol library.
pub mod Error
pub mod Kinds
pub mod Base64
pub mod Message
pub mod Validate
pub mod Digest
pub mod Encode
pub mod Decode
pub mod Wire
pub mod KeyGen
pub mod Kdf
pub mod Cipher
pub mod Packet
pub mod Fixtures
pub mod Tests
