-- ===== src/Text.antt =====
-- What the program uses of Rust's `str`: decoding, splitting, trimming and parsing numbers.
pub mod Utf8
pub mod Split
pub mod Chars
pub mod Blank
pub mod Number
pub mod Find
