-- ===== src/Oracle/Examples.antt =====
-- The interpreter of the syntax tree at a small program.
use minilang_rs.Prelude.{arith, ℕ, ◌≡◌, ◌≢◌, refl, true, false, [], ◌∷◌, none, some, String}
use minilang_rs.Prelude.Int.{ℤ, pos, negsuc}
use minilang_rs.Word.{IsI32, normalize_i32}
use minilang_rs.Oracle.Fits.{ProgramFits}
use minilang_rs.Oracle.{
  Oracle, scalar, array, ok, lookup_slot, read_scalar, read_array, assign_scalar, assign_array,
}
use minilang_rs.Oracle.Slots.{assign_scalar-reads, assign_array-reads}
use minilang_rs.Vm.State.{none_trap, divide_by_zero}
use minilang_rs.Ast.{
  BinaryOp, int_type, int_literal, identifier, binary, call, arg, no_args, array_index, var_decl,
  while_stmt, assign, return_stmt, print_stmt, end, stmt, Expr, Program,
}
use minilang_rs.Oracle.Run.{run_ast_oracle, interpret}
use minilang_rs.Oracle.Total.{Ended}
use minilang_rs.Oracle.Total.Run.{interpret-Ended}

-- `int a[2];`, `int half(int n) { return 4 / n; }` and
-- `int main() { int i = 0; while (i < 2) { a[i] = half(i + 1); i = i + 1; } print(a[0]);
-- return half(k); }`
abbrev source : Expr → Program
source k = record {
  globals =
      record { var_type = int_type; name = "a"; init_expr = none; array_size = some (pos 2) } ∷ [];
  functions =
      record {
        name = "half";
        params = record { param_type = int_type; name = "n" } ∷ [];
        body = stmt (return_stmt (binary BinaryOp.div (int_literal (pos 4)) (identifier "n"))) end;
      }
      ∷ record {
        name = "main";
        params = [];
        body = stmt (var_decl int_type "i" (some (int_literal (pos 0))) none) (
            stmt
              (while_stmt (binary BinaryOp.lt (identifier "i") (int_literal (pos 2))) (
                stmt
                  (assign "a" (some (identifier "i")) (
                    call "half"
                      (arg (binary BinaryOp.add (identifier "i") (int_literal (pos 1))) no_args)))
                  (stmt
                    (assign "i" none (binary BinaryOp.add (identifier "i") (int_literal (pos 1))))
                    end)))
              (stmt (print_stmt (array_index "a" (int_literal (pos 0))))
                (stmt (return_stmt (call "half" (arg k no_args))) end)));
      }
      ∷ [];
}

returns_one :
    run_ast_oracle (source (int_literal (pos 3)))
    ≡ some (record {
      success = true;
      return_value = pos 1;
      trap_code = none_trap;
      output = pos 4 ∷ [];
    })
unfolding run_ast_oracle
returns_one = refl

divides_by_zero :
    run_ast_oracle (source (int_literal (pos 0)))
    ≡ some (record {
      success = false;
      return_value = pos 0;
      trap_code = divide_by_zero;
      output = pos 4 ∷ [];
    })
unfolding run_ast_oracle
divides_by_zero = refl

source-Fits : ProgramFits (source (int_literal (pos 3)))
source-Fits = ground arith

interpret-Ended_example : Ended IsI32 0 0 (interpret (source (int_literal (pos 3))))
interpret-Ended_example = interpret-Ended (source (int_literal (pos 3))) source-Fits

-- A frame with the variable `i`, and the globals `a` and `i`.
abbrev state : Oracle
state = record {
  globals = ("a", array (pos 7 ∷ pos 8 ∷ [])) ∷ ("i", scalar (some (pos 9))) ∷ [];
  frames = record { scopes = (("i", scalar none) ∷ []) ∷ [] } ∷ [];
  output = [];
  cycles = 0;
}

abbrev with_scalar : Oracle
with_scalar = record state {
  frames = record { scopes = (("i", scalar (some (negsuc 0))) ∷ []) ∷ [] } ∷ [];
}

abbrev with_element : Oracle
with_element = record state {
  globals = ("a", array (pos 7 ∷ pos 5 ∷ [])) ∷ ("i", scalar (some (pos 9))) ∷ [];
}

assign_scalar-reads_example :
    (read_scalar "i" with_scalar ≡ ok (normalize_i32 (pos 4294967295)) with_scalar)
    × ((other : String) → "i" ≢ other → lookup_slot other with_scalar ≡ lookup_slot other state)
unfolding assign_scalar
assign_scalar-reads_example = assign_scalar-reads "i" (pos 4294967295) state with_scalar refl

assign_array-reads_example :
    (read_array "a" 1 with_element ≡ ok (normalize_i32 (pos 5)) with_element)
    × ((j : ℕ) (w : ℤ)
        → 1 ≢ j
        → read_array "a" j state ≡ ok w state
        → read_array "a" j with_element ≡ ok w with_element)
    × ((other : String) → "a" ≢ other → lookup_slot other with_element ≡ lookup_slot other state)
unfolding assign_array
assign_array-reads_example = assign_array-reads "a" 1 (pos 5) state with_element refl
