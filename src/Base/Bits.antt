-- ===== src/Base/Bits.antt =====
-- `&`, `|` and `~` digit by digit, at every width.
mod Step
mod Ext
mod Mask
mod Fields
pub use Step.{bit_at, bit_and_step, bit_or_step, bit_at-bit_and, bit_at-bit_or}
pub use Ext.*
pub use Mask.*
pub use Fields.*
