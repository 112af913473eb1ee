-- ===== src/Verifier/Function.antt =====
-- src/verifier.rs: `verify_function`, the worklist over the instructions of one function.
-- The loop is a recursion on fuel over `process`, its body; `none` is a run that the fuel does not
-- end, or a panic: of an index (`states[&pc]`, `instructions[pc]`), or of a vector of too many locals.
use minilang_rs.Prelude.{
  ℕ, zero, suc, ◌+◌, ◌-◌, ◌*◌, Bool, true, false, ◌&&◌, ◌||◌, not, List, [], ◌∷◌, ◌++◌, Option,
  none, some, get_elem?, lookup, insert, contains, length, ltb, ◌==◌, if◌then◌else◌, max,
}
use minilang_rs.Limits.{max_operand_stack, isize_max}
use minilang_rs.Bytecode.{Instruction, FunctionInfo, CompiledProgram}
use minilang_rs.Vm.State.{TrapCode}
use minilang_rs.Verifier.Report.{
  VerificationError, FunctionVerification, AbstractState, FunctionRange, Step, Log, push_error,
  leaves_range, stack_depth_exceeds_limit, successor_leaves_range, inconsistent_depth,
}
use minilang_rs.Verifier.Step.{pc_in_range, step_instruction}

pub record FunctionCheck : Type 0 where
  pub summary : FunctionVerification
  pub possible_traps : List TrapCode
  pub call_edges : List (ℕ × ℕ)
  pub errors : List VerificationError

-- The variables of the loop.
pub record Work : Type 0 where
  pub states : List (ℕ × AbstractState)
  pub reachable : List ℕ
  pub worklist : List ℕ
  pub max_stack_depth : ℕ
  pub call_edges : List (ℕ × ℕ)
  pub log : Log

-- `*dst = *dst && *src` over the two vectors, and whether a bit has changed.
unfoldable pub merge : List Bool → List Bool → List Bool × Bool
merge [] src = ([], false)
merge (d ∷ dst) [] = (d ∷ dst, false)
merge (d ∷ dst) (s ∷ src) =
    let (merged, changed) = merge dst src in ((d && s) ∷ merged, (d && not s) || changed)

-- A successor that has a state already: its depth must agree, its locals are met.
unfoldable pub merge_state : ℕ → AbstractState → AbstractState → Work → Work
merge_state successor existing state work =
    if existing.stack_depth == state.stack_depth
    then (let (merged, changed) = merge existing.initialized_locals state.initialized_locals in
        record work {
          states = insert successor (record existing { initialized_locals = merged }) work.states;
          worklist = if changed then work.worklist ++ successor ∷ [] else work.worklist;
        })
    else record work { log = push_error (some successor) inconsistent_depth work.log }

unfoldable pub add_state : ℕ → AbstractState → Work → Work
add_state successor state work = record work {
  states = insert successor state work.states;
  worklist = work.worklist ++ successor ∷ [];
}

unfoldable pub visit_successor : FunctionRange → ℕ → AbstractState → ℕ → Work → Work
unfolding merge_state add_state
visit_successor range pc state successor work =
    if pc_in_range range successor
    then elim (lookup successor work.states) [
      | some existing ↦ merge_state successor existing state work
      | none ↦ add_state successor state work
    ]
    else record work { log = push_error (some pc) successor_leaves_range work.log }

unfoldable pub visit_successors : FunctionRange → ℕ → AbstractState → List ℕ → Work → Work
visit_successors range pc state [] work = work
visit_successors range pc state (successor ∷ successors) work =
    visit_successors range pc state successors (visit_successor range pc state successor work)

unfoldable pub check_depth : ℕ → ℕ → Log → Log
check_depth pc depth log =
    if ltb max_operand_stack depth then push_error (some pc) stack_depth_exceeds_limit log else log

-- The rest of the body, after `step_instruction`.
unfoldable pub apply_step : FunctionRange → ℕ → Step → Work → Work
apply_step range pc step work =
    let work₁ = record work {
      max_stack_depth = max work.max_stack_depth step.state.stack_depth;
      call_edges = work.call_edges ++ step.call_edges;
      log = check_depth pc step.state.stack_depth work.log;
    } in
    visit_successors range pc step.state step.successors work₁

unfoldable pub after_step : FunctionRange → ℕ → Option Step × Log → Work → Work
after_step range pc (none, log) work = record work { log = log }
after_step range pc (some step, log) work = apply_step range pc step (record work { log = log })

-- An instruction with its state.
unfoldable pub process_at :
    CompiledProgram → FunctionRange → ℕ → AbstractState → Instruction → Work → Work
unfolding after_step
process_at program range pc state instr work =
    after_step range pc
      (step_instruction program range pc instr.opcode instr.arg1 instr.arg2 state work.log)
      (record work {
        reachable = if contains pc work.reachable then work.reachable else pc ∷ work.reachable;
        max_stack_depth = max work.max_stack_depth state.stack_depth;
      })

unfoldable pub process : CompiledProgram → FunctionRange → ℕ → Work → Option Work
process program range pc work =
    if pc_in_range range pc
    then elim (lookup pc work.states) [
      | none ↦ none
      | some state ↦ elim (get_elem? program.instructions pc) [
        | none ↦ none
        | some instr ↦ some (process_at program range pc state instr work)
      ]
    ]
    else some (record work { log = push_error (some pc) leaves_range work.log })

unfoldable pub run_worklist : CompiledProgram → FunctionRange → ℕ → Work → Option Work
run_worklist program range zero work = none
run_worklist program range (suc fuel) work = elim work.worklist [
  | [] ↦ some work
  | pc ∷ rest ↦ elim (process program range pc (record work { worklist = rest })) [
    | none ↦ none
    | some work' ↦ run_worklist program range fuel work'
  ]
]

-- The loop that initializes the parameters among so many locals.
unfoldable pub mark_params : ℕ → ℕ → List Bool
mark_params zero params = []
mark_params (suc n) zero = false ∷ mark_params n 0
mark_params (suc n) (suc params) = true ∷ mark_params n params

-- The locals at the entry. `vec![false; local_count]` panics above `isize::MAX`.
unfoldable pub entry_locals : FunctionInfo → Option (List Bool)
unfolding mark_params
entry_locals info =
    if ltb isize_max info.local_count
    then none
    else some (mark_params info.local_count info.param_count)

unfoldable pub initial_work : FunctionRange → List Bool → Work
initial_work range initialized_locals = record {
  states = (range.start, record { stack_depth = 0; initialized_locals = initialized_locals }) ∷ [];
  reachable = [];
  worklist = range.start ∷ [];
  max_stack_depth = 0;
  call_edges = [];
  log = record { errors = []; possible_traps = [] };
}

-- One round for each state that is added and each bit that is cleared, and two at the ends.
unfoldable pub worklist_fuel : FunctionRange → ℕ
worklist_fuel range = (range.end - range.start) * (range.info.local_count + 1) + 2

unfoldable pub summarize : FunctionRange → Work → FunctionCheck
summarize range work = record {
  summary = record {
    id = range.id;
    name = range.info.name;
    entry_pc = range.start;
    end_pc = range.end;
    reachable_instructions = length work.reachable;
    max_stack_depth = work.max_stack_depth;
  };
  possible_traps = work.log.possible_traps;
  call_edges = work.call_edges;
  errors = work.log.errors;
}

unfoldable pub verify_function : CompiledProgram → FunctionRange → Option FunctionCheck
unfolding summarize entry_locals initial_work
verify_function program range = elim (entry_locals range.info) [
  | none ↦ none
  | some locals ↦
      elim (run_worklist program range (worklist_fuel range) (initial_work range locals)) [
        | none ↦ none
        | some work ↦ some (summarize range work)
      ]
]

-- The work that the loop starts with, where the locals can be allocated.
abbrev pub start_work : FunctionRange → Work
start_work range = initial_work range (mark_params range.info.local_count range.info.param_count)
