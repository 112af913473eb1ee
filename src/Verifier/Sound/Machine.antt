-- ===== src/Verifier/Sound/Machine.antt =====
-- src/vm.rs: the machine's helpers where the verifier's checks have passed.
use minilang_rs.Prelude.{
  ℕ, suc, ◌+◌, ◌≤◌, ◌<◌, ◌≡◌, refl, true, false, List, ◌∷◌, length, arith, some, none, lookup, ltb,
  leb, length-set, length-append, replicate, get_elem?-some,
}
use minilang_rs.Prelude.Int.{ℤ, pos, ltb_ℤ}
use minilang_rs.Word.{as_usize}
use minilang_rs.Limits.{max_local_slots, max_global_slots, usize_max}
use minilang_rs.Bytecode.{FunctionInfo, CompiledProgram}
use minilang_rs.Vm.State.{
  TrapCode, stack_overflow, array_out_of_bounds, undefined_local, invalid_instruction,
  local_array_base, Vm, CallFrame, pop, push, read_local, write_local, read_global, write_global,
  current_local_slot, global_slot, array_size, array_index, global_array_range, last,
}
use minilang_rs.Vm.Execute.{append_zeros}
use minilang_rs.Vm.Post.{
  After, returns, After-bind, After-fail_if, After-ok_or, After-of, After-pure,
}

-- Where a machine is: its program, the function of the topmost frame, the frames, the counter.
pub record Site : Type 0 where
  pub program : CompiledProgram
  pub info : FunctionInfo
  pub frame : CallFrame
  pub frames : List CallFrame
  pub pc : ℕ

-- The machine is at the site, with `depth` operands or more.
pub record Runs (site : Site) (depth : ℕ) (vm : Vm) : Type 0 where
  pub at_pc : vm.pc ≡ site.pc
  pub calls : vm.call_stack ≡ site.frame ∷ site.frames
  pub known : lookup site.frame.func_id site.program.functions ≡ some site.info
  pub frame_fits : site.frame.base_ptr + site.info.local_count ≤ max_local_slots
  pub locals_fit : max_local_slots ≤ length vm.locals
  pub globals_fit : length vm.globals ≡ max_global_slots
  pub depth_fits : depth ≤ length vm.stack

pub Runs-weaken :
    {site : Site} (depth less : ℕ) {vm : Vm} → Runs site depth vm → less ≤ depth → Runs site less vm
Runs-weaken depth less h le = record {
  at_pc = h.at_pc;
  calls = h.calls;
  known = h.known;
  frame_fits = h.frame_fits;
  locals_fit = h.locals_fit;
  globals_fit = h.globals_fit;
  depth_fits = omega (arith, h.depth_fits);
}

module _ {site : Site} {depth : ℕ} {vm : Vm} {E : TrapCode → Vm → Type 0} {C : Type 0} where
  pub pop-Runs :
      Runs site (suc depth) vm
      → After (λ v vm'. Runs site depth vm' × (vm.stack ≡ v ∷ vm'.stack)) E C (pop vm)
  unfolding pop
  pop-Runs h = After-of (pop vm) (ground (arith, h))

  pub push-Runs :
      (v : ℤ)
      → Runs site depth vm
      → ((vm' : Vm) → E stack_overflow vm')
      → After (λ _. Runs site (suc depth)) E C (push v vm)
  unfolding push
  push-Runs v h e = After-of (push v vm) (ground (arith, h, e vm))

  pub read_local-Runs :
      (i : ℕ)
      → i < length vm.locals
      → Runs site depth vm
      → After (λ _ vm'. Runs site depth vm' × (vm' ≡ vm)) E C (read_local i vm)
  unfolding read_local
  read_local-Runs i lt h =
      let (v, e) = get_elem?-some vm.locals i lt in rw (e, read_local) (returns (h, refl))

  pub write_local-Runs :
      (i : ℕ) (v : ℤ)
      → i < length vm.locals
      → Runs site depth vm
      → After (λ _. Runs site depth) E C (write_local i v vm)
  unfolding write_local
  write_local-Runs i v lt h =
      After-of (write_local i v vm) (ground (arith, h, length-set vm.locals i v))

  pub read_global-Runs :
      (i : ℕ)
      → i < max_global_slots
      → Runs site depth vm
      → After (λ _. Runs site depth) E C (read_global i vm)
  unfolding read_global
  read_global-Runs i lt h =
      let (v, e) = get_elem?-some vm.globals i (omega (arith, h.globals_fit)) in
      rw (e, read_global) (returns h)

  pub write_global-Runs :
      (i : ℕ) (v : ℤ)
      → i < max_global_slots
      → Runs site depth vm
      → After (λ _. Runs site depth) E C (write_global i v vm)
  unfolding write_global
  write_global-Runs i v lt h =
      After-of (write_global i v vm) (ground (arith, h, length-set vm.globals i v))

  pub current_local_slot-Runs :
      (raw : ℤ)
      → ltb_ℤ raw (pos 0) ≡ false
      → as_usize raw < site.info.local_count
      → Runs site depth vm
      → After
          (λ slot vm'.
            Runs site depth vm'
            × (slot < length vm'.locals)
            × (slot ≡ site.frame.base_ptr + as_usize raw))
          E
          C
          (current_local_slot site.program raw vm)
  unfolding current_local_slot
  current_local_slot-Runs raw nonneg lt h =
      After-fail_if _ _ _ _ (λ e. absurd (ground arith))
        λ _.
          After-ok_or _ _ _ _ (λ e. absurd (no_frame e))
            λ frame e₁.
              After-ok_or _ _ _ _ (λ e. absurd (no_function frame e₁ e))
                λ func e₂.
                  After-fail_if _ _ _ _ (λ e. absurd (in_range frame func e₁ e₂ e))
                    λ _.
                      After-fail_if _ _ _ _ (λ e. absurd (no_wrap frame e₁ e))
                        λ _.
                          After-fail_if _ _ _ _ (λ e. absurd (no_overflow frame e₁ e))
                            λ _. After-pure _ _ (h, slot_fits frame e₁, slot_eq frame e₁)
    where
      last_eq : last vm.call_stack ≡ some site.frame
      last_eq = rw h.calls

      frame_eq : (frame : CallFrame) → last vm.call_stack ≡ some frame → frame ≡ site.frame
      frame_eq frame e = cc (last_eq)

      no_frame : last vm.call_stack ≡ none → ⊥
      no_frame e = cc (last_eq)

      no_function :
          (frame : CallFrame)
          → last vm.call_stack ≡ some frame
          → lookup frame.func_id site.program.functions ≡ none
          → ⊥
      no_function frame e₁ e = ground (arith, frame_eq frame e₁, h.known)

      in_range :
          (frame : CallFrame) (func : FunctionInfo)
          → last vm.call_stack ≡ some frame
          → lookup frame.func_id site.program.functions ≡ some func
          → leb func.local_count (as_usize raw) ≡ true
          → ⊥
      in_range frame func e₁ e₂ e = ground (arith, frame_eq frame e₁, h.known)

      no_wrap :
          (frame : CallFrame)
          → last vm.call_stack ≡ some frame
          → ltb usize_max (frame.base_ptr + as_usize raw) ≡ true
          → ⊥
      no_wrap frame e₁ e = ground (arith, frame_eq frame e₁, h.frame_fits)

      no_overflow :
          (frame : CallFrame)
          → last vm.call_stack ≡ some frame
          → leb max_local_slots (frame.base_ptr + as_usize raw) ≡ true
          → ⊥
      no_overflow frame e₁ e = ground (arith, frame_eq frame e₁, h.frame_fits)

      slot_fits :
          (frame : CallFrame)
          → last vm.call_stack ≡ some frame
          → frame.base_ptr + as_usize raw < length vm.locals
      slot_fits frame e₁ = ground (arith, frame_eq frame e₁, h.frame_fits, h.locals_fit)

      slot_eq :
          (frame : CallFrame)
          → last vm.call_stack ≡ some frame
          → frame.base_ptr + as_usize raw ≡ site.frame.base_ptr + as_usize raw
      slot_eq frame e₁ = cc (frame_eq frame e₁)

  pub global_slot-Runs :
      (raw : ℤ)
      → ltb_ℤ raw (pos 0) ≡ false
      → as_usize raw < max_global_slots
      → Runs site depth vm
      → After (λ slot vm'. Runs site depth vm' × (slot ≡ as_usize raw)) E C (global_slot raw vm)
  unfolding global_slot
  global_slot-Runs raw nonneg lt h =
      After-fail_if _ _ _ _ (λ e. absurd (ground arith))
        λ _.
          After-fail_if _ _ _ _ (λ e. absurd (ground (arith, h.globals_fit)))
            λ _. After-pure _ _ (h, refl)

  pub array_size-Runs :
      (raw : ℤ)
      → ltb_ℤ raw (pos 0) ≡ false
      → Runs site depth vm
      → After (λ size vm'. Runs site depth vm' × (size ≡ as_usize raw)) E C (array_size raw vm)
  unfolding array_size
  array_size-Runs raw nonneg h =
      After-fail_if _ _ _ _ (λ e. absurd (ground arith)) λ _. After-pure _ _ (h, refl)

  -- An index is a number of the run: it may be out of bounds.
  pub array_index-Runs :
      (raw : ℤ) (size : ℕ)
      → Runs site depth vm
      → ((vm' : Vm) → E array_out_of_bounds vm')
      → After (λ index vm'. Runs site depth vm' × (index < size)) E C (array_index raw size vm)
  unfolding array_index
  array_index-Runs raw size h e =
      After-fail_if _ _ _ _ (λ _. e vm)
        λ _. After-fail_if _ _ _ _ (λ _. e vm) λ lt. After-pure _ _ (h, ground arith)

module _ {site : Site} {depth : ℕ} {vm : Vm} {E : TrapCode → Vm → Type 0} {C : Type 0} where
  pub global_array_range-Runs :
      (raw_slot raw_size : ℤ)
      → ltb_ℤ raw_slot (pos 0) ≡ false
      → ltb_ℤ raw_size (pos 0) ≡ false
      → as_usize raw_slot < max_global_slots
      → as_usize raw_slot + as_usize raw_size ≤ max_global_slots
      → Runs site depth vm
      → After
          (λ range vm'. Runs site depth vm' × (range.0 + range.1 ≤ max_global_slots))
          E
          C
          (global_array_range raw_slot raw_size vm)
  unfolding global_array_range
  global_array_range-Runs raw_slot raw_size n₁ n₂ lt fits h =
      After-bind _ _ _ (global_slot-Runs raw_slot n₁ lt h) λ base vm₁ (h₁, e₁).
        After-bind _ _ _ (array_size-Runs raw_size n₂ h₁) λ size vm₂ (h₂, e₂).
          After-fail_if _ _ _ _ (λ e. absurd (ground arith))
            λ _.
              After-fail_if _ _ _ _ (λ e. absurd (ground (arith, h.globals_fit)))
                λ _. After-pure _ _ (h₂, ground arith)

  -- Whether a local holds an array is a fact of the run: it may have no value, or a stray one.
  pub local_array_base-Runs :
      (ref_slot size : ℕ)
      → ref_slot < length vm.locals
      → Runs site depth vm
      → ((vm' : Vm) → E undefined_local vm')
      → ((vm' : Vm) → E invalid_instruction vm')
      → After
          (λ base vm'. Runs site depth vm' × (base + size ≤ length vm'.locals))
          E
          C
          (local_array_base ref_slot size vm)
  unfolding local_array_base
  local_array_base-Runs ref_slot size lt h no_value stray =
      After-bind _ _ _ (read_local-Runs ref_slot lt h) λ raw vm₁ (h₁, same).
        After-fail_if _ _ _ _ (λ _. no_value vm₁)
          λ _.
            After-fail_if _ _ _ _ (λ _. stray vm₁)
              λ _.
                After-fail_if _ _ _ _ (λ _. stray vm₁)
                  λ _.
                    After-fail_if _ _ _ _ (λ _. stray vm₁)
                      λ fits. After-pure _ _ (h₁, ground (arith, same))

  pub append_zeros-Runs :
      (size : ℕ) → Runs site depth vm → After (λ _. Runs site depth) E C (append_zeros size vm)
  unfolding append_zeros
  append_zeros-Runs size h =
      returns (ground (arith, h, length-append vm.locals (replicate size (pos 0))))
