-- ===== src/Lib.antt =====
-- A model of the BPF lifter of bpf-tv, which turns BPF machine code back into LLVM IR so that a
-- translation validator can compare the two. The lifter is `mc2llvm` (src/lifter/mc2llvm.h and
-- src/lifter/mc2llvm.cpp), with `bpf2llvm` (src/lifter/bpf2llvm.h and src/lifter/bpf2llvm.cpp) for
-- the instruction set.
--
-- Common, Words: shared helpers, and words with their wrap-around.
-- Isa: the arithmetic and the conditional jumps of RFC 9669, on a register file, written without
--   the lifter. `Isa.Arithmetic.encode` is how LLVM writes such an instruction as an `MCInst`.
-- Llvm: the IR that is built. `Ir` has values and instructions. `LangRef` is a parameter of every
--   theorem on running code: LLVM's operations, with laws that give the results documented for
--   defined operands and say nothing about undefined ones. `Exec` runs blocks, where undefined
--   behaviour and poison are `none`. `Model` has operations that meet the laws.
-- Mc: `MCInst` and the opcodes, in the groups of the switch in `bpf2llvm::lift`.
-- Lifter: the state that lifting reads and changes, with the monad of code that changes it and may
--   stop (`State`); the constructors of instructions (`Build`); `createCheckedUDiv` and its
--   siblings (`Checked`). `Logic` has the rules to compose what an action emits and what that code
--   does when run, in every function that goes on from there.
-- Bpf: `bpf2llvm`. `Regs` is the register file and `unspecifiedValue`; `Operands` the reading of
--   operands and branch targets; `Alu`, `Move`, `Memory`, `Control` and `Call` the groups of cases
--   of `lift`; `Lift` is `lift`, `liftInst` and the loop over a block; `Setup` is
--   `platformInit` and the rest of `liftMCFunction` that builds code.
-- Streamer: `MCStreamerWrapper` and `MCFunction` (src/lifter/streamerwrapper.h and
--   src/lifter/streamerwrapper.cpp). Its operations are functions on the state of the streamer;
--   `Events` is the sequence of calls that the assembly parser makes; `Flow` is
--   `removeEmptyBlocks`, `checkEntryBlock` and `generateSuccessors`, after which `Bpf.Setup` lifts
--   the blocks.
-- Bytes: `runBytes` (src/lifter/bpf2llvm.cpp), which builds the same blocks from machine code.
-- Support: the checks of the source function and the change of its return type, before lifting
--   (`checkSupport` and `adjustSrc`, src/lifter/mc2llvm.cpp, with the hooks of
--   src/lifter/bpf2llvm.cpp).
-- Backend: the slots of the stack frame that are read back after code generation
--   (src/lifter/run_backend.cpp).
-- Plugin: how the conformance plugin reads a program (src/conformance/plugin.cpp).
-- Tests: the theorems applied to small functions, texts and programs.
--
-- A function of the source is the function of that name in snake case: `readReg32` is
-- `read_reg_32`. A lambda of `lift` (`alu64`, `condBr`, ...) has its name too. `exit(-1)`, a
-- failed assertion and the use of a null or outdated pointer are error results. A `Value *` is the
-- tree of its operands, and what depends on the time it runs has the number of its creation. A
-- block is its number in creation order.
--
-- Execution has fuel for the blocks entered. No theorem is limited by it: each names the number of
-- branches that the new code takes, and holds for any fuel left after them. Decoding has as much
-- fuel as there are bytes, which is enough, as every instruction takes one.
--
-- Parameters: LLVM's operations (`LangRef`), the lookup of globals and of source-side call
-- instructions (`Env`), what LLVM says of an instruction (`McInstrAnalysis`) and of bytes
-- (`Disassembler`), and the sizes of types. Not modelled: globals and their lookup, `setupLift`,
-- `escapingStackObjects`, whose result is an input of the checks, the driver, and vector and
-- floating point code, which BPF does not have. Alignment and the ordering of atomics are left
-- out: execution is sequential. Only attributes of a call that change its lifted value or clobbers
-- are kept. A successor is the name of its block. The labels of a program are distinct, so that
-- LLVM renames no block.
pub mod Common
pub mod Words
pub mod Isa
pub mod Llvm
pub mod Mc
pub mod Lifter
pub mod Bpf
pub mod Backend
pub mod Streamer
pub mod Bytes
pub mod Support
pub mod Plugin
pub mod Tests
