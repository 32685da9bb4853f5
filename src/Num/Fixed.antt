-- ===== src/Num/Fixed.antt =====
-- A decimal library to run the tests on: integers that count tenths. Its texts are a sign and
-- a row of marks.
mod Defs
mod Proofs
unfoldable pub use Defs.*
pub use Proofs.*
