-- ===== src/Utils.antt =====
-- Code of library/utils.cc that stands on no LLVM type.
pub mod Bits
pub mod PowerOfTwo
