-- ===== src/Reuse.antt =====
-- The reuse-distance analyses of library/InstTempReuse.cc and library/DataTempReuse.cc.
pub mod Data
pub mod DataBins
pub mod DataDistance
pub mod Inst
pub mod InstDistance
pub mod InstIndex
pub mod Represents
pub mod Stack
