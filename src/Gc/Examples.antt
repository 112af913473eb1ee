-- ===== src/Gc/Examples.antt =====
-- The collector at small heaps, with an allocator that goes up.
use minilang_rs.Prelude.{
  ℕ, ◌+◌, ◌≤◌, ◌≡◌, refl, true, false, List, [], ◌∷◌, some, arith, max, lookup, ◌==◌, ==_iff,
  Bool-cases, inl, inr,
}
use minilang_rs.Gc.{
  GcHeader, Objects, GarbageCollector, SystemAlloc, alloc, collect, is_gc_object, blob_tag,
  int_array_tag, total_size, align_up, mark_object, set_marked, link, sweep_objects, count_cycle,
  add_root, mark,
}
use minilang_rs.Gc.Heap.{IsHeap}
use minilang_rs.Gc.Collect.{Collected, collect-Collected}
use minilang_rs.Gc.Alloc.{IsAllocator}
use minilang_rs.Gc.Trace.{GcCall, allocate, root, collection, perform_all, perform, after_alloc}
use minilang_rs.Gc.Trace.Keeps.{perform_all-keeps}

unfoldable highest : Objects → ℕ
highest [] = 0
highest ((address, h) ∷ objects) = max address (highest objects)

-- The address behind the highest one, whatever the attempt and the size.
abbrev upward : SystemAlloc
upward attempt objects bytes = highest objects + 64

is_gc_object-highest :
    (address : ℕ) (objects : Objects)
    → is_gc_object address objects ≡ true
    → address ≤ highest objects
unfolding is_gc_object highest
is_gc_object-highest address [] e = absurd (cc e)
is_gc_object-highest address ((q, g) ∷ objects) e = elim (Bool-cases (q == address)) [
  | inl same ↦ omega (arith, (==_iff q address).0 same)
  | inr other ↦ omega (arith, is_gc_object-highest address objects (rw (other, is_gc_object) at e))
]

upward-IsAllocator : IsAllocator upward
upward-IsAllocator attempt bytes objects given =
    elim (Bool-cases (is_gc_object (upward attempt objects bytes) objects)) [
      | inr e ↦ e
      | inl e ↦ absurd (omega (arith, is_gc_object-highest _ objects e))
    ]

abbrev blob : GcHeader
blob = record { size = 100; marked = false; type_tag = blob_tag }

-- Two objects, the second one rooted.
abbrev two_objects : GarbageCollector
two_objects = record {
  all_objects = (320, blob) ∷ (64, blob) ∷ [];
  roots = 88 ∷ [];
  gc_threshold = 4096;
  bytes_allocated = 256;
  stats = record {
    bytes_allocated = 256;
    bytes_freed = 0;
    objects_allocated = 2;
    objects_freed = 0;
    gc_cycles = 0;
  };
}

two_objects-IsHeap : IsHeap two_objects
unfolding is_gc_object total_size align_up
two_objects-IsHeap = record {
  idle = (
    λ e. omega (arith, e),
    refl,
    refl,
    omega arith,
    (λ e. omega (arith, e), refl, refl, omega arith, tt),
  );
  bytes = refl;
  bytes_balance = refl;
  objects_balance = refl;
}

collect-Collected_example :
    (gc' : GarbageCollector) × (collect two_objects ≡ some gc') × Collected two_objects gc'
collect-Collected_example = collect-Collected two_objects two_objects-IsHeap

abbrev some_calls : List GcCall
some_calls = allocate 40 int_array_tag ∷ root 500 ∷ collection ∷ []

abbrev after_calls : GarbageCollector
after_calls = record {
  all_objects = (64, blob) ∷ [];
  roots = 500 ∷ 88 ∷ [];
  gc_threshold = 4096;
  bytes_allocated = 128;
  stats = record {
    bytes_allocated = 320;
    bytes_freed = 192;
    objects_allocated = 3;
    objects_freed = 2;
    gc_cycles = 1;
  };
}

calls_run : perform_all upward some_calls two_objects ≡ some after_calls
unfolding perform_all perform after_alloc alloc link collect mark mark_object set_marked
    sweep_objects count_cycle total_size align_up highest add_root is_gc_object
calls_run = refl

perform_all-keeps_example : (lookup 64 after_calls.all_objects ≡ some blob) × IsHeap after_calls
perform_all-keeps_example =
    perform_all-keeps upward upward-IsAllocator 64 blob some_calls two_objects after_calls
      two_objects-IsHeap refl refl tt calls_run
