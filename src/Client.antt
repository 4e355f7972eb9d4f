-- ===== src/Client.antt =====
-- cmd/fwknop: the client.
pub mod Config
pub mod Flags
pub mod Loading
pub mod Layers
pub mod Loads
pub mod Precedence
pub mod Offset
pub mod Packet
pub mod Keys
pub mod Send
pub mod Output
pub mod Run
pub mod RcFile
pub mod Tests
pub mod LoadingTests
pub mod RunTests
