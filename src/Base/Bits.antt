-- ===== src/Base/Bits.antt =====
-- Bit operations on unsigned words as arithmetic: single bits, masks and fields.
mod Digits
mod Fields
pub use Digits.*
pub use Fields.*
