-- ===== src/Convert.antt =====
-- cmd/fwknop-convert: the conversion of legacy configuration files.
pub mod Lines
pub mod Server
pub mod Backend
pub mod Access
pub mod Client
pub mod Reading
pub mod Stanzas
pub mod ClientKeys
pub mod Sorting
pub mod Output
pub mod Document
pub mod Written
pub mod Tests
