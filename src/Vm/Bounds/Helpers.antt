-- ===== src/Vm/Bounds/Helpers.antt =====
-- The bounds of the machine's stores, and what each helper of `execute_instruction` keeps of them.
use minilang_rs.Prelude.{
  ℕ, ◌+◌, ◌≤◌, ◌<◌, ◌≡◌, refl, ◌∷◌, length, arith, length-set, get_elem?-some,
}
use minilang_rs.Prelude.Int.{ℤ}
use minilang_rs.Limits.{max_local_slots, max_global_slots, max_frames, max_operand_stack}
use minilang_rs.Bytecode.{CompiledProgram}
use minilang_rs.Vm.State.{
  Vm, Outcome, pop, push, current_local_slot, global_slot, array_size, array_index,
  global_array_range, local_array_base, read_local, write_local, read_global, write_global,
}
use minilang_rs.Vm.Post.{
  After, returns, After-bind, After-fail_if, After-ok_or, After-of, After-pure,
}

pub record IsBounded (vm : Vm) : Type 0 where
  pub stack_fits : length vm.stack ≤ max_operand_stack
  pub locals_fit : max_local_slots ≤ length vm.locals
  pub globals_fit : length vm.globals ≡ max_global_slots
  pub frames_fit : length vm.call_stack ≤ max_frames

-- `vm` is bounded, and has the call stack and the counters of `start`.
pub record Kept (start vm : Vm) : Type 0 where
  pub bounded : IsBounded vm
  pub same_frames : vm.call_stack ≡ start.call_stack
  pub same_cycles : vm.cycles ≡ start.cycles
  pub same_limit : vm.max_cycles ≡ start.max_cycles

-- A step that keeps this, on a value and on a trap, and panics only under `C`.
abbrev pub Keeps : {A : Type 0} → Vm → Type 0 → Outcome A → Type 0
Keeps start C o = After (λ _. Kept start) (λ _. Kept start) C o

-- The same, with a property of the value.
abbrev pub KeepsWith : {A : Type 0} → Vm → Type 0 → (A → Vm → Type 0) → Outcome A → Type 0
KeepsWith start C P o = After (λ a vm. Kept start vm × P a vm) (λ _. Kept start) C o

module _ {start vm : Vm} {C : Type 0} (h : Kept start vm) where
  pub pop-Keeps : KeepsWith start C (λ v vm'. vm.stack ≡ v ∷ vm'.stack) (pop vm)
  unfolding pop
  pop-Keeps = After-of (pop vm) (ground arith)

  pub push-Keeps : (v : ℤ) → Keeps start C (push v vm)
  unfolding push
  push-Keeps v = After-of (push v vm) (ground arith)

  pub read_local-Keeps :
      (i : ℕ)
      → i < length vm.locals
      → KeepsWith start C (λ _ vm'. length vm'.locals ≡ length vm.locals) (read_local i vm)
  unfolding read_local
  read_local-Keeps i lt =
      let (v, e) = get_elem?-some vm.locals i lt in rw (e, read_local) (returns (h, refl))

  pub write_local-Keeps :
      (i : ℕ) (v : ℤ) → i < length vm.locals → Keeps start C (write_local i v vm)
  unfolding write_local
  write_local-Keeps i v lt =
      After-of (write_local i v vm) (ground (arith, length-set vm.locals i v))

  pub read_global-Keeps : (i : ℕ) → i < max_global_slots → Keeps start C (read_global i vm)
  unfolding read_global
  read_global-Keeps i lt =
      let (v, e) = get_elem?-some vm.globals i (omega arith) in rw (e, read_global) (returns h)

  pub write_global-Keeps :
      (i : ℕ) (v : ℤ) → i < max_global_slots → Keeps start C (write_global i v vm)
  unfolding write_global
  write_global-Keeps i v lt =
      After-of (write_global i v vm) (ground (arith, length-set vm.globals i v))

  pub current_local_slot-Keeps :
      (program : CompiledProgram) (raw : ℤ)
      → KeepsWith start C (λ slot vm'. slot < length vm'.locals) (current_local_slot program raw vm)
  unfolding current_local_slot
  current_local_slot-Keeps program raw =
      After-fail_if _ _ _ _ (λ _. h)
        λ _.
          After-ok_or _ _ _ _ (λ _. h)
            λ frame _.
              After-ok_or _ _ _ _ (λ _. h)
                λ func _.
                  After-fail_if _ _ _ _ (λ _. h)
                    λ _.
                      After-fail_if _ _ _ _ (λ _. h)
                        λ _.
                          After-fail_if _ _ _ _ (λ _. h)
                            λ e. After-pure _ _ (h, ground (arith, h.bounded.locals_fit))

  pub global_slot-Keeps :
      (raw : ℤ) → KeepsWith start C (λ slot _. slot < max_global_slots) (global_slot raw vm)
  unfolding global_slot
  global_slot-Keeps raw =
      After-fail_if _ _ _ _ (λ _. h)
        λ _.
          After-fail_if _ _ _ _ (λ _. h)
            λ e. After-pure _ _ (h, ground (arith, h.bounded.globals_fit))

  pub array_size-Keeps : (raw : ℤ) → Keeps start C (array_size raw vm)
  unfolding array_size
  array_size-Keeps raw = After-fail_if _ _ _ _ (λ _. h) λ _. After-pure _ _ h

  pub array_index-Keeps :
      (raw : ℤ) (size : ℕ) → KeepsWith start C (λ index _. index < size) (array_index raw size vm)
  unfolding array_index
  array_index-Keeps raw size =
      After-fail_if _ _ _ _ (λ _. h)
        λ _. After-fail_if _ _ _ _ (λ _. h) λ e. After-pure _ _ (h, ground arith)

module _ {start vm : Vm} {C : Type 0} (h : Kept start vm) where
  pub global_array_range-Keeps :
      (raw_base raw_size : ℤ)
      → KeepsWith start C
          (λ range _. range.0 + range.1 ≤ max_global_slots)
          (global_array_range raw_base raw_size vm)
  unfolding global_array_range
  global_array_range-Keeps raw_base raw_size =
      After-bind _ _ _ (global_slot-Keeps h raw_base) λ base _ (h₁, _).
        After-bind _ _ _ (array_size-Keeps h₁ raw_size) λ size _ h₂.
          After-fail_if _ _ _ _ (λ _. h₂)
            λ _.
              After-fail_if _ _ _ _ (λ _. h₂)
                λ e. After-pure _ _ (h₂, ground (arith, h₂.bounded.globals_fit))

  pub local_array_base-Keeps :
      (ref_slot size : ℕ)
      → ref_slot < length vm.locals
      → KeepsWith start C
          (λ base vm'. base + size ≤ length vm'.locals)
          (local_array_base ref_slot size vm)
  unfolding local_array_base
  local_array_base-Keeps ref_slot size lt =
      After-bind _ _ _ (read_local-Keeps h ref_slot lt) λ raw_base _ (h₁, same).
        After-fail_if _ _ _ _ (λ _. h₁)
          λ _.
            After-fail_if _ _ _ _ (λ _. h₁)
              λ _.
                After-fail_if _ _ _ _ (λ _. h₁)
                  λ _.
                    After-fail_if _ _ _ _ (λ _. h₁) λ e. After-pure _ _ (h₁, ground (arith, same))
