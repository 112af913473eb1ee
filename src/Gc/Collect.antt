-- ===== src/Gc/Collect.antt =====
-- src/gc.rs: the sweep phase, and a whole collection.
use minilang_rs.Prelude.{
  ℕ, ◌+◌, ◌-◌, ◌≤◌, ◌≡◌, sym, refl, ap, Bool, true, false, ◌||◌, [], ◌∷◌, some, arith, length, ltb,
  Bool-cases, inl, inr,
}
use minilang_rs.Gc.{
  Objects, GarbageCollector, is_gc_object, free_object, sweep_objects, count_cycle, collect,
  total_size, max_layout,
}
use minilang_rs.Gc.Heap.{total, AllIdle, IsHeap, is_rooted, keep_where, survivors}
use minilang_rs.Gc.Marks.{marks_where, mark-marks_where, AllIdle-Apart}

-- The collector has given back the objects that are not kept.
record Swept (objects kept : Objects) (gc gc' : GarbageCollector) : Type 0 where
  bytes : gc'.bytes_allocated + total objects ≡ gc.bytes_allocated + total kept
  freed : gc'.stats.bytes_freed + total kept ≡ gc.stats.bytes_freed + total objects
  count : gc'.stats.objects_freed + length kept ≡ gc.stats.objects_freed + length objects
  same_bytes : gc'.stats.bytes_allocated ≡ gc.stats.bytes_allocated
  same_objects : gc'.stats.objects_allocated ≡ gc.stats.objects_allocated
  same_roots : gc'.roots ≡ gc.roots
  same_threshold : gc'.gc_threshold ≡ gc.gc_threshold
  same_cycles : gc'.stats.gc_cycles ≡ gc.stats.gc_cycles

keep_where-total :
    (test : ℕ → Bool) (objects : Objects) → total (keep_where test objects) ≤ total objects
keep_where-total test [] = omega arith
keep_where-total test ((address, h) ∷ objects) = elim (Bool-cases (test address)) [
  | inl e ↦ rw e (omega (arith, keep_where-total test objects))
  | inr e ↦ rw e (omega (arith, keep_where-total test objects))
]

-- What is swept of marked objects.
abbrev Sweeps : (ℕ → Bool) → Objects → GarbageCollector → Type 0
Sweeps test objects gc =
    (gc' : GarbageCollector) × (sweep_objects (marks_where test objects) gc
      ≡ some (keep_where test objects, gc'))
    × Swept objects (keep_where test objects) gc gc'

abbrev freed_one : ℕ → GarbageCollector → GarbageCollector
freed_one bytes gc = record gc {
  bytes_allocated = gc.bytes_allocated - bytes;
  stats = record gc.stats {
    bytes_freed = gc.stats.bytes_freed + bytes;
    objects_freed = gc.stats.objects_freed + 1;
  };
}

free_object-eq :
    (bytes : ℕ) (gc : GarbageCollector)
    → bytes ≤ max_layout
    → bytes ≤ gc.bytes_allocated
    → free_object bytes gc ≡ some (freed_one bytes gc)
unfolding free_object
free_object-eq bytes gc small enough = rw (first, second, free_object) refl
  where
    first : ltb max_layout bytes ≡ false
    first = ground (arith, small)

    second : ltb gc.bytes_allocated bytes ≡ false
    second = ground (arith, enough)

sweep-Sweeps :
    (test : ℕ → Bool) (objects : Objects) (gc : GarbageCollector)
    → AllIdle objects
    → total objects ≤ gc.bytes_allocated
    → Sweeps test objects gc
unfolding sweep_objects
sweep-Sweeps test [] gc idle enough = (
  gc,
  refl,
  (record {
    bytes = refl;
    freed = refl;
    count = refl;
    same_bytes = refl;
    same_objects = refl;
    same_roots = refl;
    same_threshold = refl;
    same_cycles = refl;
  }),
)
sweep-Sweeps test ((address, h) ∷ objects) gc (a, b, unmarked, small, idle) enough =
    elim (Bool-cases (test address)) [
      | inl e ↦ kept e (sweep-Sweeps test objects gc idle (omega (arith, enough)))
      | inr e ↦ dropped e (
          sweep-Sweeps test objects (freed_one (total_size h.size) gc) idle
            (ground (arith, enough)))
    ]
  where
    mark_eq : (v : Bool) → test address ≡ v → (h.marked || test address) ≡ v
    mark_eq v e = rw (unmarked, e) refl

    clean : record h { marked = false } ≡ h
    clean = ap (λ m. record h { marked = m }) (sym unmarked)

    kept : test address ≡ true → Sweeps test objects gc → Sweeps test ((address, h) ∷ objects) gc
    kept e (gc', ran, swept) = (
      gc',
      rw (mark_eq true e, ran, e)
          (ap (λ g. some ((address, g) ∷ keep_where test objects, gc')) clean),
      (rw e (record {
        bytes = omega (arith, swept.bytes);
        freed = omega (arith, swept.freed);
        count = omega (arith, swept.count);
        same_bytes = swept.same_bytes;
        same_objects = swept.same_objects;
        same_roots = swept.same_roots;
        same_threshold = swept.same_threshold;
        same_cycles = swept.same_cycles;
      })),
    )

    dropped :
        test address ≡ false
        → Sweeps test objects (freed_one (total_size h.size) gc)
        → Sweeps test ((address, h) ∷ objects) gc
    dropped e (gc', ran, swept) = (
      gc',
      rw
          (
            mark_eq false e,
            sweep_objects,
            free_object-eq (total_size h.size) gc small (omega (arith, enough)),
            e,
          )
          ran,
      (rw e (record {
        bytes = ground (arith, swept.bytes, enough);
        freed = ground (arith, swept.freed);
        count = ground (arith, swept.count);
        same_bytes = swept.same_bytes;
        same_objects = swept.same_objects;
        same_roots = swept.same_roots;
        same_threshold = swept.same_threshold;
        same_cycles = swept.same_cycles;
      })),
    )

is_gc_object-keep_where :
    (header : ℕ) (test : ℕ → Bool) (objects : Objects)
    → is_gc_object header objects ≡ false
    → is_gc_object header (keep_where test objects) ≡ false
unfolding is_gc_object
is_gc_object-keep_where header test [] e = refl
is_gc_object-keep_where header test ((address, h) ∷ objects) e =
    ground (arith, is_gc_object-keep_where header test objects)

keep_where-AllIdle :
    (test : ℕ → Bool) (objects : Objects) → AllIdle objects → AllIdle (keep_where test objects)
keep_where-AllIdle test [] h = tt
keep_where-AllIdle test ((address, g) ∷ objects) (a, b, c, d, e) =
    elim (Bool-cases (test address)) [
      | inl t ↦ rw t (
        a,
        is_gc_object-keep_where address test objects b,
        c,
        d,
        keep_where-AllIdle test objects e,
      )
      | inr t ↦ rw t (keep_where-AllIdle test objects e)
    ]

-- What a collection leaves: the rooted objects, the roots, and the threshold.
pub record Collected (gc gc' : GarbageCollector) : Type 0 where
  pub heap : IsHeap gc'
  pub objects : gc'.all_objects ≡ survivors gc
  pub roots : gc'.roots ≡ gc.roots
  pub threshold : gc'.gc_threshold ≡ gc.gc_threshold
  pub bytes_freed :
      gc'.stats.bytes_freed + total (survivors gc) ≡ gc.stats.bytes_freed + total gc.all_objects
  pub cycles : gc'.stats.gc_cycles ≡ gc.stats.gc_cycles + 1

-- A collection ends without a panic. It leaves exactly the objects whose pointers are roots, as
-- they were and in their order, and no mark; it gives back the bytes of all others, counts them
-- as freed, and keeps the collector's counts those of its objects.
pub collect-Collected :
    (gc : GarbageCollector)
    → IsHeap gc
    → (gc' : GarbageCollector) × (collect gc ≡ some gc') × Collected gc gc'
unfolding collect count_cycle
collect-Collected gc heap =
    let (gc', ran, swept) =
      sweep-Sweeps (is_rooted gc.roots) gc.all_objects gc heap.idle (omega (arith, heap.bytes)) in
    (
      count_cycle (survivors gc, gc'),
      rw
          (
            mark-marks_where gc.roots gc.all_objects (AllIdle-Apart gc.all_objects heap.idle),
            ran,
            collect,
          )
          refl,
      record {
        heap = record {
          idle = keep_where-AllIdle _ gc.all_objects heap.idle;
          bytes = ground (
            arith,
            swept.bytes,
            heap.bytes,
            keep_where-total (is_rooted gc.roots) gc.all_objects,
          );
          bytes_balance =
              ground
                (arith, swept.bytes, swept.freed, swept.same_bytes, heap.bytes, heap.bytes_balance);
          objects_balance = ground (arith, swept.count, swept.same_objects, heap.objects_balance);
        };
        objects = refl;
        roots = swept.same_roots;
        threshold = swept.same_threshold;
        bytes_freed = swept.freed;
        cycles = ap (λ n. n + 1) swept.same_cycles;
      },
    )
