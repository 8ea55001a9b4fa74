-- ===== src/Misc.antt =====
-- td/utils/misc.h and td/utils/misc.cpp: text and number helpers over bytes.
-- A string is the list of its bytes, numbers below 256.
pub mod Chars
pub mod Hex
pub mod Integers
pub mod Decimal
pub mod SafeIntegers
pub mod Split
pub mod Parts
pub mod HexNumbers
pub mod RunLength
mod Tests
