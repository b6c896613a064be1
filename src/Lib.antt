-- ===== src/Lib.antt =====
-- The analyses of a platform-independent software analysis library: a compiler pass instruments a
-- program, and for every instruction that the program executes the runtime calls the analyses in
-- library/, which keep counters, distributions and traces and print them as JSON at the end.
--
-- The parts and their files:
--   * Splay.antt and Splay/: the splay tree of library/splay.cc. Trees are values, so what an
--     operation returns is the tree behind the pointer. `Splay` is `splay`: its `while(1)` is
--     `splay_loop`, an iteration of it `iterate`, and the code after it `assemble`. The field `p`
--     is read only on the chains below the header node `ref`, which are lists of `Frame`s here.
--     Splay/Ops.antt has `NewNode` to `Find`. The fuel of the loop is the number of nodes.
--   * Utils/: `upperPowerOfTwo` of library/utils.cc.
--   * OrderedMap.antt: `std::map` with `unsigned long long` keys, as the analyses use it.
--   * Reuse/: InstTempReuse.cc and DataTempReuse.cc of library/. Both ask the tree for the number of
--     issue cycles that are later than the last access to a line. The specification, in
--     Reuse/Stack.antt, is the stack of an LRU cache.
--   * MpiData.antt and MpiData/: library/MPIdata.cc, the bytes that a process exchanges, with its
--     lists of pending requests. A failed assertion is `none`.
--   * OpenMp.antt and OpenMp/: library/OpenMPstats.cc, the calls of the OpenMP runtime. The chains of
--     `if`s on a name are tables here, since their bodies have one form. OpenMp/Flat.antt reads all of
--     them as one table.
--   * BranchEntropy.antt and BranchEntropy/: library/BranchEntropy.cc, the trace of branches, with
--     its buffer and its shards.
--   * Instructions.antt and Instructions/: library/InstructionAnalysis.cc, the opcodes and types of LLVM
--     that the code names, and the classes of instructions.
--   * Ilp.antt and Ilp/: library/ILP.cc, the cycle at which an instruction can issue. Ilp/Operands.antt
--     has the tables and `InsertOperandUsage`, Ilp/Cycle.antt `getInstIssueCycle`, Ilp/Visit.antt
--     `visit` and `updateILPforCall`, and Ilp.antt the scheduler's window and the counts of issue
--     cycles. The loop over a full window has as much fuel as an `int` has values. The function that a
--     call reaches and the address of a load or a store are parts of the instruction.
--   * InstructionMix.antt and InstructionMix/: library/InstructionMix.cc, the counts of instructions by
--     opcode and by type, with both reports. LLVM's number of a type is a parameter.
--   * RegisterCount.antt and RegisterCount/: library/RegisterCount.cc, the register accesses.
--   * MpiStats.antt and MpiStats/: library/MPIstats.cc, the calls of MPI by name and by category, with the
--     report. The chains of `if`s on a name are tables here.
--   * ExternalLibraryCount.antt and ExternalLibraryCount/: library/ExternalLibraryCount.cc, the calls of
--     functions without a body. The order of names, `strcasecmp`, is a parameter.
--   * Wkldchar.antt and Wkldchar/: `WKLDchar::analyze` of library/WKLDchar.cc, which gives each executed
--     instruction to the analyses above. The count of the instruction mix is the issue cycle of the
--     reuse analyses.
--   * SafeQueue.antt and SafeQueue/: library/safe_queue.cc, the queue between the threads that receive
--     messages and the one that analyses them, as a sequence of the steps that the lock allows.
--   * Tests.antt and Tests/: runs of the definitions and uses of the theorems.
--   * Base.antt, Base/: shared names, Boolean tests, lists, and 64-bit sums.
--
-- Numbers are natural numbers; each sum of `unsigned long long` is taken modulo 2^64, and a value of
-- type `int` is a 32-bit pattern where the source reads one. LLVM's answers about an instruction
-- (opcode, operands, callee, address, size) are arguments of the handlers. The locks around the
-- analyses are not modelled, and neither is memory: nodes that are freed or used again are new values.
--
-- Not modelled: the rest of the driver (WKLDchar.cc, libanalysisCoupled.cc, libanalysisDecoupled.cc,
-- server.cc), which is input and output around the handlers; LoadStoreVerbose.cc, which prints; the
-- report of ILP.cc, which divides floating-point numbers; MPImap.cc and MPIcnfSupport.cc, whose maps
-- are shared by threads and processes; the printing of the reports of the reuse analyses and of
-- MPIdata.cc; the other helpers of utils.cc; the passes in passCoupled/ and passDecoupled/, which
-- build code with LLVM; the program branch-analysis/branchBehavior.cc.
pub mod Base
pub mod BranchEntropy
pub mod ExternalLibraryCount
pub mod Ilp
pub mod InstructionMix
pub mod Instructions
pub mod MpiData
pub mod MpiStats
pub mod OpenMp
pub mod OrderedMap
pub mod RegisterCount
pub mod Reuse
pub mod SafeQueue
pub mod Splay
pub mod Tests
pub mod Utils
pub mod Wkldchar
