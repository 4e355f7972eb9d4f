-- ===== src/Spa/Wire.antt =====
-- fkospa: what the decoder makes of the encoder's output.
pub mod Fields
pub mod Decoding
pub mod Digests
pub mod RoundTrip
