-- ===== src/Verifier/Sound/Step.antt =====
-- src/verifier.rs against src/vm.rs: what an accepted instruction may do, for every opcode.
use minilang_rs.Prelude.{◌≡◌, refl, not, some, none}
use minilang_rs.Prelude.Int.{ℤ, pos, ◌==ℤ◌}
use minilang_rs.Bytecode.{Opcode}
use minilang_rs.Vm.State.{Vm}
use minilang_rs.Vm.Execute.{execute_instruction}
use minilang_rs.Vm.Run.{validate_functions}
use minilang_rs.Vm.Post.{After}
use minilang_rs.Vm.Bounds.Arms.{Overflows}
use minilang_rs.Verifier.Report.{AbstractState, FunctionRange, Step, Log}
use minilang_rs.Verifier.Sound.Machine.{Site, Runs}
use minilang_rs.Verifier.Step.{step_instruction}
use minilang_rs.Verifier.Rules.{Verdict-some}
use minilang_rs.Verifier.Sound.Follows.{MayTrap, Follows}
use minilang_rs.Verifier.Sound.Ends.{Sound}
use minilang_rs.Verifier.Sound.Scalars.{
  load_const-Sound, load_local-Sound, store_local-Sound, load_global-Sound, store_global-Sound,
  binary-Sound, div-Sound, neg-Sound, not-Sound,
}
use minilang_rs.Verifier.Sound.Arrays.{
  array_load-Sound, array_store-Sound, local_array_load-Sound, local_array_store-Sound,
  alloc_array-Sound, array_new-Sound,
}
use minilang_rs.Verifier.Sound.Control.{
  jump-Sound, conditional-Sound, call-Sound, return-Sound, print-Sound, pop-Sound, dup-Sound,
  halt-Sound,
}

-- Every arm at once.
all-Sound :
    (site : Site) (range : FunctionRange)
    → range.info ≡ site.info
    → validate_functions site.program.functions ≡ none
    → (arg1 arg2 : ℤ) (state : AbstractState) (log : Log) (vm : Vm) → Runs site state.stack_depth vm
    → (o : Opcode) → Sound site range arg1 arg2 state log vm o
unfolding execute_instruction step_instruction
all-Sound site range same valid a b st log vm h Opcode.load_const =
    load_const-Sound site range same a b st log h
all-Sound site range same valid a b st log vm h Opcode.load_local =
    load_local-Sound site range same a b st log h
all-Sound site range same valid a b st log vm h Opcode.store_local =
    store_local-Sound site range same a b st log h
all-Sound site range same valid a b st log vm h Opcode.load_global =
    load_global-Sound site range same a b st log h
all-Sound site range same valid a b st log vm h Opcode.store_global =
    store_global-Sound site range same a b st log h
all-Sound site range same valid a b st log vm h Opcode.add =
    binary-Sound site range same a b st log h Opcode.add (λ x y. (_, refl))
all-Sound site range same valid a b st log vm h Opcode.sub =
    binary-Sound site range same a b st log h Opcode.sub (λ x y. (_, refl))
all-Sound site range same valid a b st log vm h Opcode.mul =
    binary-Sound site range same a b st log h Opcode.mul (λ x y. (_, refl))
all-Sound site range same valid a b st log vm h Opcode.div = div-Sound site range same a b st log h
all-Sound site range same valid a b st log vm h Opcode.neg = neg-Sound site range same a b st log h
all-Sound site range same valid a b st log vm h Opcode.eq =
    binary-Sound site range same a b st log h Opcode.eq (λ x y. (_, refl))
all-Sound site range same valid a b st log vm h Opcode.ne =
    binary-Sound site range same a b st log h Opcode.ne (λ x y. (_, refl))
all-Sound site range same valid a b st log vm h Opcode.lt =
    binary-Sound site range same a b st log h Opcode.lt (λ x y. (_, refl))
all-Sound site range same valid a b st log vm h Opcode.gt =
    binary-Sound site range same a b st log h Opcode.gt (λ x y. (_, refl))
all-Sound site range same valid a b st log vm h Opcode.le =
    binary-Sound site range same a b st log h Opcode.le (λ x y. (_, refl))
all-Sound site range same valid a b st log vm h Opcode.ge =
    binary-Sound site range same a b st log h Opcode.ge (λ x y. (_, refl))
all-Sound site range same valid a b st log vm h Opcode.and =
    binary-Sound site range same a b st log h Opcode.and (λ x y. (_, refl))
all-Sound site range same valid a b st log vm h Opcode.or =
    binary-Sound site range same a b st log h Opcode.or (λ x y. (_, refl))
all-Sound site range same valid a b st log vm h Opcode.not = not-Sound site range same a b st log h
all-Sound site range same valid a b st log vm h Opcode.jump =
    jump-Sound site range same a b st log h
all-Sound site range same valid a b st log vm h Opcode.jump_if_false =
    conditional-Sound site range same a b st log h Opcode.jump_if_false (λ v. v ==ℤ pos 0)
all-Sound site range same valid a b st log vm h Opcode.jump_if_true =
    conditional-Sound site range same a b st log h Opcode.jump_if_true (λ v. not (v ==ℤ pos 0))
all-Sound site range same valid a b st log vm h Opcode.call =
    call-Sound site range same a b st log h valid
all-Sound site range same valid a b st log vm h Opcode.return =
    return-Sound site range same a b st log h
all-Sound site range same valid a b st log vm h Opcode.array_load =
    array_load-Sound site range same a b st log h
all-Sound site range same valid a b st log vm h Opcode.array_store =
    array_store-Sound site range same a b st log h
all-Sound site range same valid a b st log vm h Opcode.array_new =
    array_new-Sound site range same a b st log h
all-Sound site range same valid a b st log vm h Opcode.local_array_load =
    local_array_load-Sound site range same a b st log h
all-Sound site range same valid a b st log vm h Opcode.local_array_store =
    local_array_store-Sound site range same a b st log h
all-Sound site range same valid a b st log vm h Opcode.alloc_array =
    alloc_array-Sound site range same a b st log h
all-Sound site range same valid a b st log vm h Opcode.print =
    print-Sound site range same a b st log h
all-Sound site range same valid a b st log vm h Opcode.pop = pop-Sound site range same a b st log h
all-Sound site range same valid a b st log vm h Opcode.dup = dup-Sound site range same a b st log h
all-Sound site range same valid a b st log vm h Opcode.halt =
    halt-Sound site range same a b st log h

-- An instruction that the verifier accepts, at a machine with at least the operands that the
-- verifier counts in the function's frame, goes to a successor of the step with the step's
-- operands, enters the function that it calls, returns or halts. It traps only with a full
-- operand or call stack, with a division or an index that the verifier has recorded, or at a
-- local that has no value or holds no array; never with an operand, a function, a slot or a jump
-- that is not there. It panics on the two overflows alone.
pub step_instruction-Sound :
    (site : Site) (range : FunctionRange) (o : Opcode) (arg1 arg2 : ℤ) (state : AbstractState)
    (log log' : Log) (step : Step) (vm : Vm)
    → range.info ≡ site.info
    → validate_functions site.program.functions ≡ none
    → step_instruction site.program range site.pc o arg1 arg2 state log ≡ (some step, log')
    → Runs site state.stack_depth vm
    → After
        (Follows site step)
        (λ code _. MayTrap o log' code)
        (Overflows o vm.stack)
        (execute_instruction site.program o arg1 arg2 vm)
step_instruction-Sound site range o arg1 arg2 state log log' step vm same valid accepts h =
    Verdict-some (rw accepts at (all-Sound site range same valid arg1 arg2 state log vm h o))
