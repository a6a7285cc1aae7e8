-- ===== src/Bits.antt =====
-- The bits of a number: `&`, `|`, `^`, `~` and the shifts, read bit by bit. Two numbers with the
-- same bits are equal, so an equation of masks and shifts is one of Booleans at each index.
mod Digit
mod Shift
unfoldable pub use Digit.*
pub use Shift.*
