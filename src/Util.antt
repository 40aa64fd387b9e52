-- ===== src/Util.antt =====
-- src/kickstart/lib.util: the utility library.
pub mod Chars
pub mod Strings
pub mod Tags
mod Tests
