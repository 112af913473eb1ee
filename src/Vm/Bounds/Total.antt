-- ===== src/Vm/Bounds/Total.antt =====
-- src/vm.rs: the end of `run`.
use minilang_rs.Prelude.{
  ℕ, zero, suc, ◌+◌, ◌<◌, ◌≡◌, Bool-cases, inl, inr, refl, arith, some, none, lookup, Option, ltb,
  length-replicate,
}
use minilang_rs.Prelude.Int.{pos}
use minilang_rs.Limits.{max_local_slots, max_global_slots}
use minilang_rs.Bytecode.{FunctionInfo, CompiledProgram}
use minilang_rs.Vm.State.{TrapCode, stack_overflow, undefined_function, Vm, new}
use minilang_rs.Vm.Run.{
  VmResult, make_trap_result, Round, again, done, crash, round, Ending, finished, panicked,
  run_loop, initial_frame, start_main, with_max_cycles, run, validate_functions, validate_program,
}
use minilang_rs.Vm.Bounds.Helpers.{IsBounded}
use minilang_rs.Vm.Bounds.Loop.{IsWithin, IsRunning, IsOverflowing, RoundKeeps, round-Keeps}

-- The machines at the head of the loop, from `start` on.
pub data Reaches (program : CompiledProgram) (start : Vm) : Vm → Type 0 where
  here : Reaches program start start
  next :
      {vm vm' : Vm}
      → Reaches program start vm
      → round program vm ≡ again vm'
      → Reaches program start vm'

-- A result within the limits, or a panic where an instruction overflowed.
abbrev pub EndsWell : CompiledProgram → Vm → ℕ → Ending → Type 0
EndsWell program start limit (finished r) = IsWithin limit r
EndsWell program start limit panicked =
    (vm : Vm) × Reaches program start vm × IsOverflowing program vm

module _ (program : CompiledProgram) (start : Vm)
    (valid : validate_functions program.functions ≡ none) (limit : ℕ)
    (some_cycles : 0 < limit) where
  abbrev Total : ℕ → Vm → Type 0
  Total fuel vm =
      (e : Ending) × (run_loop program fuel vm ≡ some e) × EndsWell program start limit e

  run_loop-Total :
      (fuel : ℕ) (vm : Vm)
      → Reaches program start vm
      → IsRunning limit vm
      → limit < vm.cycles + fuel
      → Total fuel vm
  unfolding run_loop
  run_loop-Total zero vm reached h enough = absurd (omega (arith, h.cycles_fit))
  run_loop-Total (suc fuel) vm reached h enough =
      go (run_loop-Total fuel) (round program vm) refl
        (round-Keeps program valid limit vm some_cycles h)
    where
      go :
          ((vm' : Vm)
            → Reaches program start vm'
            → IsRunning limit vm'
            → limit < vm'.cycles + fuel
            → Total fuel vm')
          → (r : Round) → round program vm ≡ r
          → RoundKeeps program limit vm r
          → Total (suc fuel) vm
      go rest (again vm') e (h', c) = rw (e, run_loop) (rest vm' (next reached e) h' (omega arith))
      go rest (done r) e w = (finished r, rw (e, run_loop), w)
      go rest crash e o = (panicked, rw (e, run_loop), (vm, reached, o))

pub validate_functions-of_program :
    (program : CompiledProgram)
    → validate_program program ≡ none
    → validate_functions program.functions ≡ none
unfolding validate_program
validate_functions-of_program program h = ground arith

pub new-IsBounded : (limit : ℕ) → IsBounded (with_max_cycles limit new)
unfolding new with_max_cycles
new-IsBounded limit = record {
  stack_fits = omega arith;
  locals_fit = rw length-replicate (omega arith);
  globals_fit = length-replicate max_global_slots (pos 0);
  frames_fit = omega arith;
}

pub initial_frame-IsRunning :
    (limit : ℕ) (main_func : FunctionInfo)
    → IsRunning limit (initial_frame main_func (with_max_cycles limit new))
unfolding initial_frame with_max_cycles new
initial_frame-IsRunning limit main_func =
    let b = new-IsBounded limit in
    record {
      bounded = record {
        stack_fits = b.stack_fits;
        locals_fit = b.locals_fit;
        globals_fit = b.globals_fit;
        frames_fit = omega arith;
      };
      has_frame = λ e. cc;
      limited = refl;
      cycles_fit = omega arith;
    }

initial_frame_cycles :
    (limit : ℕ) (main_func : FunctionInfo)
    → (initial_frame main_func (with_max_cycles limit new)).cycles ≡ 0
unfolding initial_frame with_max_cycles new
initial_frame_cycles limit main_func = refl

trap_IsWithin :
    (limit : ℕ) (code : TrapCode)
    → IsWithin limit (make_trap_result code (with_max_cycles limit new))
unfolding make_trap_result with_max_cycles new
trap_IsWithin limit code = omega arith

-- The ways in which `run` ends: refused before it starts, or as the loop ends from the first
-- frame of main.
pub data RunEnds (program : CompiledProgram) (limit : ℕ) : Ending → Type 0 where
  refused : {r : VmResult} → IsWithin limit r → RunEnds program limit (finished r)
  ran :
      {e : Ending} (main_func : FunctionInfo)
      → lookup program.main_func_id program.functions ≡ some main_func
      → EndsWell program (initial_frame main_func (with_max_cycles limit new)) limit e
      → RunEnds program limit e

-- With a cycle limit, `run` ends on every program: it reports depths and cycles within the
-- limits, or it panics at a machine, reached by rounds from the first frame of main, whose next
-- instruction overflows.
pub run_total :
    (program : CompiledProgram) (limit : ℕ)
    → 0 < limit
    → (e : Ending) × (run program (with_max_cycles limit new) ≡ some e) × RunEnds program limit e
unfolding run start_main with_max_cycles
run_total program limit some_cycles = go (validate_program program) refl
  where
    go_main :
        (f : Option FunctionInfo)
        → lookup program.main_func_id program.functions ≡ f
        → validate_functions program.functions ≡ none
        → (e : Ending) × (start_main program f (with_max_cycles limit new) ≡ some e)
          × RunEnds program limit e
    go_main none found valid = (_, refl, refused (trap_IsWithin limit undefined_function))
    go_main (some main_func) found valid =
        elim (Bool-cases (ltb max_local_slots main_func.local_count)) [
          | inl big ↦ (_, rw (big, start_main), refused (trap_IsWithin limit stack_overflow))
          | inr fits ↦
              let (e, p, w) =
                run_loop-Total program (initial_frame main_func (with_max_cycles limit new)) valid
                  limit some_cycles (limit + 1) _ here (initial_frame-IsRunning limit main_func)
                  (omega (arith, initial_frame_cycles limit main_func)) in
              (e, rw (fits, start_main) p, ran main_func found w)
        ]

    go :
        (v : Option TrapCode)
        → validate_program program ≡ v
        → (e : Ending) × (run program (with_max_cycles limit new) ≡ some e)
          × RunEnds program limit e
    go (some code) e = (_, rw (e, run), refused (trap_IsWithin limit code))
    go none e = rw (e, run) (go_main _ refl (validate_functions-of_program program e))
