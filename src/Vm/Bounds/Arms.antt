-- ===== src/Vm/Bounds/Arms.antt =====
-- src/vm.rs: the arms of `execute_instruction` that leave the call stack alone, and when they panic.
use minilang_rs.Prelude.{
  ℕ, ◌+◌, ◌≡◌, Bool, true, false, List, ◌∷◌, arith, some, none, length-append, replicate,
}
use minilang_rs.Prelude.Int.{ℤ, pos, negsuc}
use minilang_rs.Word.{undefined, checked_neg, checked_div}
use minilang_rs.Word.Laws.{checked_neg-eq-none, checked_div-eq-none}
use minilang_rs.Bytecode.{Opcode, CompiledProgram}
use minilang_rs.Vm.State.{array_size, Vm, pop, push, ◌>>=◌, ◌>>◌, pure}
use minilang_rs.Vm.Execute.{
  execute_instruction, jump_when, binary, operator, append_zeros, print_value, peek,
}
use minilang_rs.Vm.Post.{
  returns, After-bind, After-then, After-fail_if, After-or_panic, After-of, After-pure,
}
use minilang_rs.Vm.Bounds.Helpers.{
  Kept, Keeps, pop-Keeps, push-Keeps, read_local-Keeps, write_local-Keeps, read_global-Keeps,
  write_global-Keeps, current_local_slot-Keeps, global_slot-Keeps, array_size-Keeps,
  array_index-Keeps, local_array_base-Keeps, global_array_range-Keeps,
}

-- The two operations that overflow: `-i64::MIN`, and `i64::MIN / -1`.
abbrev pub Overflows : Opcode → List ℤ → Type 0
Overflows Opcode.neg (a ∷ s) = a ≡ undefined
Overflows Opcode.div (b ∷ a ∷ s) = (a ≡ undefined) × (b ≡ negsuc 0)
Overflows _ _ = ⊥

-- The operators that `binary` serves.
abbrev pub IsOperator : Opcode → Type 0
IsOperator o = (a b : ℤ) → (v : ℤ) × (operator o a b ≡ some v)

-- Each arm of `execute_instruction` that leaves the call stack alone.
module _ (program : CompiledProgram) (arg1 arg2 : ℤ) {start : Vm} (h : Kept start start) where
  pub push-pure-Keeps :
      {C : Type 0} {vm : Vm} (v : ℤ) → Kept start vm → Keeps start C ((push v >> pure true) vm)
  push-pure-Keeps v k = After-then _ _ _ (push-Keeps k v) λ _ k₁. After-pure _ _ k₁

  pub binary-Keeps : {C : Type 0} (o : Opcode) → IsOperator o → Keeps start C (binary o start)
  unfolding binary
  binary-Keeps o total = After-bind _ _ _ (pop-Keeps h) λ b _ (h₁, _).
      After-bind _ _ _ (pop-Keeps h₁) λ a _ (h₂, _).
        After-or_panic _ _ _ (λ e. absurd (impossible a b e)) λ v _. push-pure-Keeps v h₂
    where
      impossible : (a b : ℤ) → operator o a b ≡ none → ⊥
      impossible a b e = let (v, q) = total a b in cc

  pub jump_when-Keeps :
      {C : Type 0} {vm : Vm} (taken : Bool) (target : ℤ)
      → Kept start vm
      → Keeps start C (jump_when taken target vm)
  unfolding jump_when
  jump_when-Keeps true target k = returns (ground (arith, k))
  jump_when-Keeps false target k = returns k

  -- A conditional jump pops its test first.
  pub pop_jump-Keeps :
      {C : Type 0} (test : ℤ → Bool) → Keeps start C ((pop >>= λ v. jump_when (test v) arg1) start)
  pop_jump-Keeps test =
      After-bind _ _ _ (pop-Keeps h) λ v _ (h₁, _). jump_when-Keeps (test v) arg1 h₁

  pub append_zeros-Keeps :
      {C : Type 0} (size : ℕ) {vm : Vm} → Kept start vm → Keeps start C (append_zeros size vm)
  unfolding append_zeros
  append_zeros-Keeps size {vm} k =
      returns (ground (arith, k, length-append vm.locals (replicate size (pos 0))))

  pub new_array-Keeps :
      {C : Type 0}
      → Keeps start C (
          (array_size arg1 >>= λ size. append_zeros size >>= λ base. push (pos base) >> pure true)
            start)
  new_array-Keeps = After-bind _ _ _ (array_size-Keeps h arg1) λ size _ h₁.
      After-bind _ _ _ (append_zeros-Keeps size h₁) λ base _ h₂. push-pure-Keeps (pos base) h₂

  abbrev pub Arm : Opcode → Type 0
  Arm o = Keeps start (Overflows o start.stack) (execute_instruction program o arg1 arg2 start)

  pub load_const-Keeps : Arm Opcode.load_const
  unfolding execute_instruction
  load_const-Keeps = push-pure-Keeps arg1 h

  pub load_local-Keeps : Arm Opcode.load_local
  unfolding execute_instruction
  load_local-Keeps = After-bind _ _ _ (current_local_slot-Keeps h program arg1) λ slot _ (h₁, lt).
      After-bind _ _ _ (read_local-Keeps h₁ slot lt)
        λ value _ (h₂, _). After-fail_if _ _ _ _ (λ _. h₂) λ _. push-pure-Keeps value h₂

  pub store_local-Keeps : Arm Opcode.store_local
  unfolding execute_instruction
  store_local-Keeps = After-bind _ _ _ (pop-Keeps h) λ value _ (h₁, _).
      After-bind _ _ _ (current_local_slot-Keeps h₁ program arg1) λ slot _ (h₂, lt).
        After-then _ _ _ (write_local-Keeps h₂ slot value lt) λ _ h₃. After-pure _ _ h₃

  pub load_global-Keeps : Arm Opcode.load_global
  unfolding execute_instruction
  load_global-Keeps = After-bind _ _ _ (global_slot-Keeps h arg1) λ slot _ (h₁, lt).
      After-bind _ _ _ (read_global-Keeps h₁ slot lt) λ value _ h₂. push-pure-Keeps value h₂

  pub store_global-Keeps : Arm Opcode.store_global
  unfolding execute_instruction
  store_global-Keeps = After-bind _ _ _ (global_slot-Keeps h arg1) λ slot _ (h₁, lt).
      After-bind _ _ _ (pop-Keeps h₁) λ value _ (h₂, _).
        After-then _ _ _ (write_global-Keeps h₂ slot value lt) λ _ h₃. After-pure _ _ h₃

  pub div-Keeps : Arm Opcode.div
  unfolding execute_instruction
  div-Keeps = After-bind _ _ _ (pop-Keeps h) λ b vm₁ (h₁, e₁).
      After-bind _ _ _ (pop-Keeps h₁) λ a vm₂ (h₂, e₂).
        After-fail_if _ _ _ _ (λ _. h₂)
          λ _.
            After-or_panic _ _ _ (overflow a b vm₁.stack vm₂.stack e₁ e₂)
              λ q _. push-pure-Keeps _ h₂
    where
      overflow :
          (a b : ℤ) (s s' : List ℤ)
          → start.stack ≡ b ∷ s
          → s ≡ a ∷ s'
          → checked_div a b ≡ none
          → Overflows Opcode.div start.stack
      overflow a b s s' e₁ e₂ e = rw (e₁, e₂) (checked_div-eq-none a b e)

  pub neg-Keeps : Arm Opcode.neg
  unfolding execute_instruction
  neg-Keeps =
      After-bind _ _ _ (pop-Keeps h)
        λ a vm₁ (h₁, e₁). After-or_panic _ _ _ (overflow a vm₁.stack e₁) λ n _. push-pure-Keeps _ h₁
    where
      overflow :
          (a : ℤ) (s : List ℤ)
          → start.stack ≡ a ∷ s
          → checked_neg a ≡ none
          → Overflows Opcode.neg start.stack
      overflow a s e₁ e = rw e₁ (checked_neg-eq-none a e)

  pub not-Keeps : Arm Opcode.not
  unfolding execute_instruction
  not-Keeps = After-bind _ _ _ (pop-Keeps h) λ a _ (h₁, _). push-pure-Keeps _ h₁

  pub array_load-Keeps : Arm Opcode.array_load
  unfolding execute_instruction
  array_load-Keeps = After-bind _ _ _ (global_array_range-Keeps h arg1 arg2) λ range _ (h₁, fits).
      After-bind _ _ _ (pop-Keeps h₁) λ raw _ (h₂, _).
        After-bind _ _ _ (array_index-Keeps h₂ raw range.1) λ index _ (h₃, lt).
          After-bind _ _ _ (read_global-Keeps h₃ (range.0 + index) (omega arith))
            λ value _ h₄. push-pure-Keeps value h₄

  pub array_store-Keeps : Arm Opcode.array_store
  unfolding execute_instruction
  array_store-Keeps = After-bind _ _ _ (global_array_range-Keeps h arg1 arg2) λ range _ (h₁, fits).
      After-bind _ _ _ (pop-Keeps h₁) λ value _ (h₂, _).
        After-bind _ _ _ (pop-Keeps h₂) λ raw _ (h₃, _).
          After-bind _ _ _ (array_index-Keeps h₃ raw range.1) λ index _ (h₄, lt).
            After-then _ _ _ (write_global-Keeps h₄ (range.0 + index) value (omega arith))
              λ _ h₅. After-pure _ _ h₅

  pub local_array_load-Keeps : Arm Opcode.local_array_load
  unfolding execute_instruction
  local_array_load-Keeps = After-bind _ _ _ (array_size-Keeps h arg2) λ size _ h₁.
      After-bind _ _ _ (pop-Keeps h₁) λ raw _ (h₂, _).
        After-bind _ _ _ (array_index-Keeps h₂ raw size) λ index _ (h₃, lt).
          After-bind _ _ _ (current_local_slot-Keeps h₃ program arg1) λ slot _ (h₄, within).
            After-bind _ _ _ (local_array_base-Keeps h₄ slot size within) λ base _ (h₅, fits).
              After-bind _ _ _ (read_local-Keeps h₅ (base + index) (omega arith))
                λ value _ (h₆, _). push-pure-Keeps value h₆

  pub local_array_store-Keeps : Arm Opcode.local_array_store
  unfolding execute_instruction
  local_array_store-Keeps = After-bind _ _ _ (array_size-Keeps h arg2) λ size _ h₁.
      After-bind _ _ _ (pop-Keeps h₁) λ value _ (h₂, _).
        After-bind _ _ _ (pop-Keeps h₂) λ raw _ (h₃, _).
          After-bind _ _ _ (array_index-Keeps h₃ raw size) λ index _ (h₄, lt).
            After-bind _ _ _ (current_local_slot-Keeps h₄ program arg1) λ slot _ (h₅, within).
              After-bind _ _ _ (local_array_base-Keeps h₅ slot size within) λ base _ (h₆, fits).
                After-then _ _ _ (write_local-Keeps h₆ (base + index) value (omega arith))
                  λ _ h₇. After-pure _ _ h₇

  pub print_value-Keeps :
      {C : Type 0} (v : ℤ) {vm : Vm} → Kept start vm → Keeps start C (print_value v vm)
  unfolding print_value
  print_value-Keeps v k = returns (ground (arith, k))

  pub print-Keeps : Arm Opcode.print
  unfolding execute_instruction
  print-Keeps =
      After-bind _ _ _ (pop-Keeps h)
        λ value _ (h₁, _). After-then _ _ _ (print_value-Keeps value h₁) λ _ h₂. After-pure _ _ h₂

  pub discard-Keeps : Arm Opcode.pop
  unfolding execute_instruction
  discard-Keeps = After-bind _ _ _ (pop-Keeps h) λ _ _ (h₁, _). After-pure _ _ h₁

  pub dup-Keeps : Arm Opcode.dup
  unfolding execute_instruction peek
  dup-Keeps =
      After-bind _ _ _ (After-of (peek start.stack start) (ground (arith, h)))
        λ value _ h₁. push-pure-Keeps value h₁
