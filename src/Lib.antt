-- ===== src/Lib.antt =====
-- Verification of MiniLang's compiler and back end: the translation to bytecode, the virtual machine,
-- the bytecode verifier, the optimizer and the garbage collector, and the interpreter of the syntax
-- tree that they are compared with.
--
-- MiniLang's compiler (src/compiler.rs) turns a syntax tree (src/ast.rs) into a `CompiledProgram`: a list of
-- instructions, a map of functions, and global metadata. The optimizer (src/optimizer.rs) rewrites
-- it, the verifier (src/verifier.rs) checks it without running it, and the virtual machine
-- (src/vm.rs) runs it. All three read the limits of src/limits.rs.
--
-- Files, by the source file that they model:
--   src/limits.rs: Limits.
--   src/ast.rs: Ast (the syntax tree, without spans).
--   src/compiler.rs: Bytecode (`Opcode`, `Instruction`, `FunctionInfo`, `GlobalInfo`,
--     `CompiledProgram`), Compiler (`Compiler`, `emit`, `patch`), Compiler/Expression
--     (`compile_expr`), Compiler/Statement (`collect_local_decls`, `compile_stmt`), Compiler/Program
--     (`compile_function`, `compile`). Compiler/Closed is about what the passes keep,
--     Compiler/Jumps about where jumps lead, Compiler/Runs about the run of compiled programs.
--   The integer arithmetic of all of them: Word (`normalize_i32`, `wrapping_add` and so on, `i64`
--     negation and division with their overflow, `as usize`), with its laws in Word/Laws.
--   src/vm.rs: Vm/State (the machine, the outcome of a step, `pop`, `push`, the slot and array
--     helpers), Vm/Execute (`execute_instruction`, one clause for each opcode), Vm/Run
--     (`validate_program`, `run`). Vm/Post has the rules for reasoning about a step, Vm/Bounds the
--     bounds of the stores and the end of a run.
--   src/verifier.rs: Verifier/Report (its data), Verifier/Step (`step_instruction` and its checks),
--     Verifier/Function (`verify_function`), Verifier/Metadata (`verify_global_metadata` and
--     `function_ranges`), Verifier/Frames (`max_frame_depth`), Verifier/Program (the backend
--     eligibility, with `jit_status_for_target` of the build for Linux on x86-64, and `verify`).
--     Verifier/Rules has the rules for what a check accepts, Verifier/Reports is about rejection
--     and errors, Verifier/Certified about the result of the worklist (its depths,
--     and in Locals and Flow its initialized locals), Verifier/Total about its
--     end, Verifier/Sound about the step against the machine's, Verifier/Raised about the step above
--     the operands of callers, Verifier/Run about the whole run of a program that `verify` accepts.
--   src/optimizer.rs: Optimizer/Passes (`constant_folding`, `strength_reduction`,
--     `peephole_optimization`), Optimizer/Dead (`dead_code_elimination`, `optimize`).
--     Optimizer/Block compares blocks before and after a pass; of dead code, Optimizer/Dead/Control
--     says where control goes by opcode, Optimizer/Dead/Walk what the walk meets, and
--     Optimizer/Dead/Places and Optimizer/Dead/Moves where the kept code stands.
--   src/oracle.rs: Oracle (the state, the scopes, `tick`), Oracle/Nodes (expressions and statements
--     over their parts), Oracle/Run (`eval_expr`, `exec_stmt`,
--     `call_function`, `run_ast_oracle`). Oracle/Slots is about assignments, Oracle/Fits
--     about states of 32-bit values, Oracle/Total about the end of a run.
--   src/gc.rs: Gc (`GarbageCollector` with `alloc`, the roots and `collect`), Gc/Trace (sequences of
--     calls). Gc/Heap has the invariant, Gc/Marks and Gc/Collect are about a collection, Gc/Alloc
--     about an allocation, Gc/Trace/Keeps about rooted objects.
--
-- Conventions. A step of the machine takes a `Vm` to an `Outcome`: a value, a trap, or a Rust panic
-- (an index out of range, or an `i64` negation or division that overflows, as the checked build has
-- it). The operand stack and the call stack are lists with the top first. A check of the verifier
-- takes a `Log`, the errors and traps so far, to an optional value and a new log. A part of the
-- interpreter of the tree takes its state to an `Answer`. A hash map is an
-- association list in which the first entry of a key counts, a hash set a list searched by
-- `contains`. `i32` and `i64` are the integers ℤ with the wrap-around written out, `usize` is ℕ with
-- the checks of the 64-bit target. The system allocator is a parameter of the collector: an attempt,
-- the objects that there are and a size give an address, 0 for null; that a block which it gives is
-- none of these objects is a hypothesis of the theorems that need it.
--
-- Fuel. `run_loop` takes the machine's cycle limit and one more; each round counts a cycle. `reach`
-- takes the number of entries, three for each instruction, and one more; an instruction is met once
-- and pushes at most two others. `verify_function` takes one round for each local and instruction,
-- since a round after the first at a place follows a cleared bit of its locals, and two more.
-- `max_frame_depth` takes two more than the callers; each visit below another enters a further
-- caller. The interpreter of the tree takes two units for each cycle of its limit and one more:
-- every nested call of the three functions counts a cycle or is a turn of a loop, whose condition
-- counts one. The depth of Rust's own stack is not modelled.
--
-- Not modelled are trap and error texts beyond their kind, the debug print, the trace, and the
-- allocator and collector fields of the machine, which nothing reads; the bytes of the collector's
-- objects, its counters' overflow, and its end; and a memory that is full. The lexer, the parser, the semantic analysis, the
-- comparison of the interpreter with the backends, the collecting machine, the native code
-- generator and the command line tools are outside this library.
pub mod Prelude
pub mod Limits
pub mod Bytecode
pub mod Word
pub mod Vm
pub mod Verifier
pub mod Optimizer
pub mod Gc
pub mod Ast
pub mod Compiler
pub mod Oracle
