-- ===== src/Bits.antt =====
-- Laws of `&` and `|` on numbers of any width, which the drivers use for masks, fields and pins.
pub mod Digits
pub mod Fields
pub mod Power
pub mod Masks
