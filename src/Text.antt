-- ===== src/Text.antt =====
-- The string and memory functions of lib/.
pub mod Bytes
pub mod Measure
pub mod Compare
pub mod Copy
pub mod Filled
pub mod Search
pub mod Substring
pub mod Integers
pub mod Numbers
pub mod Ctype
mod Tests
