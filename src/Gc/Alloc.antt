-- ===== src/Gc/Alloc.antt =====
-- src/gc.rs: `alloc`, over the system allocator.
use minilang_rs.Prelude.{
  ℕ, ◌+◌, ◌-◌, ◌≤◌, ◌<◌, ltb→lt, ◌⊎◌, ◌≡◌, ◌≢◌, refl, true, false, some, arith, ltb, ◌==◌, ==_iff,
  Bool-cases, inl, inr,
}
use minilang_rs.Limits.{usize_max}
use minilang_rs.Gc.{
  TypeTag, Objects, GarbageCollector, SystemAlloc, Allocation, allocated, exhausted, panicked,
  writes_null, link, retry_alloc, first_alloc, alloc_sized, alloc, collect, total_size, max_layout,
  header_size, alignment, is_gc_object,
}
use minilang_rs.Gc.Heap.{IsHeap}
use minilang_rs.Gc.Collect.{Collected, collect-Collected}

-- A block that the system allocator gives is none of the objects that there are.
abbrev pub IsAllocator : SystemAlloc → Type 0
IsAllocator system_alloc =
    (attempt bytes : ℕ) (objects : Objects)
    → system_alloc attempt objects bytes ≢ 0
    → is_gc_object (system_alloc attempt objects bytes) objects ≡ false

-- The collector at the call of the system allocator: as it was, or collected once or
-- more.
pub data Ready (gc : GarbageCollector) : GarbageCollector → Type 0 where
  as_it_was : Ready gc gc
  after_collection : {mid gc' : GarbageCollector} → Ready gc mid → Collected mid gc' → Ready gc gc'

pub Ready-IsHeap : {gc gc' : GarbageCollector} → IsHeap gc → Ready gc gc' → IsHeap gc'
Ready-IsHeap heap as_it_was = heap
Ready-IsHeap heap (after_collection ready c) = c.heap

-- The results of an allocation.
pub data Allocates (system_alloc : SystemAlloc) (size : ℕ) (type_tag : TypeTag)
    (gc : GarbageCollector) : Allocation → Type 0 where
  gives :
      (before : GarbageCollector) (address : ℕ)
      → Ready gc before
      → address ≢ 0
      → is_gc_object address before.all_objects ≡ false
      → total_size size ≤ max_layout
      → Allocates system_alloc size type_tag gc
          (allocated (address + header_size) (link address size type_tag before))
  gives_up :
      {gc' : GarbageCollector}
      → IsHeap gc'
      → Ready gc gc'
      → Allocates system_alloc size type_tag gc (exhausted gc')
  goes_wrong :
      {gc' : GarbageCollector} (before : GarbageCollector)
      → system_alloc 0 before.all_objects (total_size size) ≡ 0
      → system_alloc 1 gc'.all_objects (total_size size) ≢ 0
      → Allocates system_alloc size type_tag gc (writes_null gc')
  overflows :
      (usize_max < gc.bytes_allocated + size) ⊎ (usize_max < header_size + size + alignment - 1)
      → Allocates system_alloc size type_tag gc panicked

pub link-IsHeap :
    (address size : ℕ) (type_tag : TypeTag) (gc : GarbageCollector)
    → IsHeap gc
    → address ≢ 0
    → is_gc_object address gc.all_objects ≡ false
    → total_size size ≤ max_layout
    → IsHeap (link address size type_tag gc)
unfolding link
link-IsHeap address size type_tag gc heap some_address fresh fits = record {
  idle = (some_address, fresh, refl, fits, heap.idle);
  bytes = ground (arith, heap.bytes);
  bytes_balance = ground (arith, heap.bytes_balance);
  objects_balance = ground (arith, heap.objects_balance);
}

module _ (system_alloc : SystemAlloc) (fresh : IsAllocator system_alloc) (size : ℕ)
    (type_tag : TypeTag) (gc : GarbageCollector) where
  abbrev Ends : Allocation → Type 0
  Ends = Allocates system_alloc size type_tag gc

  first_alloc-Ends :
      (before : GarbageCollector)
      → IsHeap before
      → Ready gc before
      → total_size size ≤ max_layout
      → Ends (first_alloc system_alloc size type_tag before)
  unfolding first_alloc retry_alloc
  first_alloc-Ends before heap ready fits =
      elim (Bool-cases (system_alloc 0 before.all_objects (total_size size) == 0)) [
        | inr given ↦
            rw (given, first_alloc)
              (gives before _ ready (ne given) (fresh 0 _ before.all_objects (ne given)) fits)
        | inl null ↦ retried null (collect-Collected before heap)
      ]
    where
      ne : {n : ℕ} → n == 0 ≡ false → n ≢ 0
      ne e same = ground (arith, e, same)

      retried :
          system_alloc 0 before.all_objects (total_size size) == 0 ≡ true
          → (after : GarbageCollector) × (collect before ≡ some after) × Collected before after
          → Ends (first_alloc system_alloc size type_tag before)
      retried null (after, ran, c) =
          elim (Bool-cases (system_alloc 1 after.all_objects (total_size size) == 0)) [
            | inl null' ↦
                rw (null, ran, null', first_alloc, retry_alloc)
                  (gives_up c.heap (after_collection ready c))
            | inr given ↦
                rw (null, ran, given, first_alloc, retry_alloc)
                  (goes_wrong before ((==_iff _ 0).0 null) (ne given))
          ]

  alloc_sized-Ends :
      (before : GarbageCollector)
      → IsHeap before
      → Ready gc before
      → Ends (alloc_sized system_alloc size type_tag before)
  unfolding alloc_sized
  alloc_sized-Ends before heap ready =
      elim (Bool-cases (ltb usize_max (header_size + size + alignment - 1))) [
        | inl over ↦ rw (over, alloc_sized) (overflows (inr (ltb→lt _ _ over)))
        | inr within ↦ elim (Bool-cases (ltb max_layout (total_size size))) [
          | inl big ↦ rw (within, big, alloc_sized) (gives_up heap ready)
          | inr fits ↦
              rw (within, fits, alloc_sized)
                (first_alloc-Ends before heap ready (ground (arith, fits)))
        ]
      ]

  pub alloc-Allocates : IsHeap gc → Ends (alloc system_alloc size type_tag gc)
  unfolding alloc
  alloc-Allocates heap = elim (Bool-cases (ltb usize_max (gc.bytes_allocated + size))) [
    | inl over ↦ rw (over, alloc) (overflows (inl (ltb→lt _ _ over)))
    | inr within ↦ elim (Bool-cases (ltb gc.gc_threshold (gc.bytes_allocated + size))) [
      | inl above ↦ collected within above (collect-Collected gc heap)
      | inr below ↦ rw (within, below, alloc) (alloc_sized-Ends gc heap as_it_was)
    ]
  ]
    where
      collected :
          ltb usize_max (gc.bytes_allocated + size) ≡ false
          → ltb gc.gc_threshold (gc.bytes_allocated + size) ≡ true
          → (after : GarbageCollector) × (collect gc ≡ some after) × Collected gc after
          → Ends (alloc system_alloc size type_tag gc)
      collected within above (after, ran, c) =
          rw (within, above, ran, alloc)
            (alloc_sized-Ends after c.heap (after_collection as_it_was c))
