-- ===== src/Gbinary.antt =====
-- encoding/gbinary: fixed-width integers, booleans and bits as bytes.
pub mod Bytes
pub mod Value
pub mod LittleEndian
pub mod BigEndian
pub mod RoundTrip
pub mod Variable
pub mod Bits
mod Tests
