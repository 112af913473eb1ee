-- ===== src/Verifier/Frames.antt =====
-- src/verifier.rs: `max_frame_depth`, the search over the call graph.
-- `visiting` is an argument of the recursion: a call that succeeds takes its function out again,
-- and after one that fails nothing more is visited.
pub mod Bound
pub mod Ends
use minilang_rs.Prelude.{
  ℕ, zero, suc, ◌+◌, Bool, List, [], ◌∷◌, ◌++◌, Option, none, some, contains, lookup, insert,
  length, max, if◌then◌else◌,
}

abbrev pub Memo : Type 0
Memo = List (ℕ × Option ℕ)

abbrev pub CallEdges : Type 0
CallEdges = List (ℕ × List ℕ)

abbrev pub callees : CallEdges → ℕ → List ℕ
callees edges func_id = elim (lookup func_id edges) [ some fs ↦ fs | none ↦ [] ]

-- `call_edges.entry(caller).or_default().push(callee)`
unfoldable pub add_edge : ℕ × ℕ → CallEdges → CallEdges
add_edge (caller, callee) edges = insert caller (callees edges caller ++ callee ∷ []) edges

unfoldable pub add_edges : List (ℕ × ℕ) → CallEdges → CallEdges
unfolding add_edge
add_edges [] edges = edges
add_edges (edge ∷ new) edges = add_edges new (add_edge edge edges)

-- The result of a visit: the depth, where there is no recursion, and the memo. Without fuel there
-- is none.
abbrev pub Visit : Type 0
Visit = Option (Option ℕ × Memo)

-- The loop over the callees, which stops at the first that fails.
unfoldable pub visit_all : (ℕ → Memo → Visit) → List ℕ → ℕ → Memo → Visit
visit_all visit [] max_child_depth memo = some (some max_child_depth, memo)
visit_all visit (callee ∷ rest) max_child_depth memo = elim (visit callee memo) [
  | none ↦ none
  | some (none, memo') ↦ some (none, memo')
  | some (some child_depth, memo') ↦ visit_all visit rest (max max_child_depth child_depth) memo'
]

unfoldable pub record_depth : ℕ → Visit → Visit
record_depth func_id none = none
record_depth func_id (some (none, memo)) = some (none, memo)
record_depth func_id (some (some max_child_depth, memo)) =
    some (some (max_child_depth + 1), insert func_id (some (max_child_depth + 1)) memo)

unfoldable pub visit : CallEdges → ℕ → List ℕ → ℕ → Memo → Visit
unfolding visit_all record_depth
visit edges zero visiting func_id memo = none
visit edges (suc fuel) visiting func_id memo = elim (lookup func_id memo) [
  | some depth ↦ some (depth, memo)
  | none ↦
      if contains func_id visiting
      then some (none, insert func_id none memo)
      else record_depth func_id
          (visit_all (visit edges fuel (func_id ∷ visiting)) (callees edges func_id) 0 memo)
]

abbrev pub depth_of : Visit → Option (Option ℕ)
depth_of none = none
depth_of (some (depth, memo)) = some depth

-- Each visit below another is of a further caller, or of a function without calls.
unfoldable pub max_frame_depth : ℕ → CallEdges → Option (Option ℕ)
unfolding visit
max_frame_depth main_func_id edges = depth_of (visit edges (length edges + 2) [] main_func_id [])
