-- ===== src/Tests.antt =====
-- Runs of the definitions, and the theorems at concrete inputs.
mod BranchTests
mod DriverTests
mod IlpTests
mod LibraryTests
mod MixTests
mod MpiTests
mod OpenMpTests
mod QueueTests
mod RegisterTests
mod ReuseTests
mod SplayTests
mod VisitTests
