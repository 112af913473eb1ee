-- ===== src/Gc/Trace/Keeps.antt =====
-- src/gc.rs: a rooted object across the calls of a sequence.
use minilang_rs.Prelude.{
  ℕ, ◌+◌, ◌≡◌, ◌≢◌, refl, sym, ◌∙◌, true, List, [], ◌∷◌, Option, none, some, some-injective, lookup,
}
use minilang_rs.Gc.{
  TypeTag, GcHeader, GarbageCollector, SystemAlloc, Allocation, collect, header_size,
}
use minilang_rs.Gc.Heap.{IsHeap, is_rooted}
use minilang_rs.Gc.Collect.{Collected, collect-Collected}
use minilang_rs.Gc.Alloc.{
  IsAllocator, Allocates, gives, gives_up, goes_wrong, overflows, link-IsHeap, alloc-Allocates,
}
use minilang_rs.Gc.Trace.{
  GcCall, allocate, root, unroot, unroot_all, collection, after_alloc, perform, perform_all,
}
use minilang_rs.Gc.Trace.Stays.{
  Stays, Collected-Stays, Ready-Stays, link-Stays, add_root-Stays, remove_root-Stays,
}

-- No call drops the root.
abbrev pub KeepsRoot : ℕ → List GcCall → Type 0
KeepsRoot ptr [] = Unit
KeepsRoot ptr (allocate size type_tag ∷ calls) = KeepsRoot ptr calls
KeepsRoot ptr (unroot other ∷ calls) = (other ≢ ptr) × KeepsRoot ptr calls
KeepsRoot ptr (unroot_all ∷ calls) = ⊥
KeepsRoot ptr (root other ∷ calls) = KeepsRoot ptr calls
KeepsRoot ptr (collection ∷ calls) = KeepsRoot ptr calls

module _ (system_alloc : SystemAlloc) (fresh : IsAllocator system_alloc) (address : ℕ)
    (h : GcHeader) where
  after_alloc-Stays :
      (size : ℕ) (type_tag : TypeTag) (gc gc' : GarbageCollector) (a : Allocation)
      → Stays address h gc
      → Allocates system_alloc size type_tag gc a
      → after_alloc a ≡ some gc'
      → Stays address h gc'
  unfolding after_alloc
  after_alloc-Stays size type_tag gc gc' a stays
        (gives before new_address ready some_address free fits) e =
      let kept = Ready-Stays stays ready in
      rw (← some-injective _ _ e) (
        link-Stays new_address size type_tag kept
          (link-IsHeap new_address size type_tag before kept.heap some_address free fits) free)
  after_alloc-Stays size type_tag gc gc' a stays (gives_up heap ready) e =
      rw (← some-injective _ _ e) (Ready-Stays stays ready)
  after_alloc-Stays size type_tag gc gc' a stays (goes_wrong before null given) e = absurd (cc e)
  after_alloc-Stays size type_tag gc gc' a stays (overflows over) e = absurd (cc e)

  collect-Stays :
      (gc gc' : GarbageCollector) → Stays address h gc → collect gc ≡ some gc' → Stays address h gc'
  collect-Stays gc gc' stays e = from (collect-Collected gc stays.heap)
    where
      from :
          (after : GarbageCollector) × (collect gc ≡ some after) × Collected gc after
          → Stays address h gc'
      from (after, ran, c) = rw (← some-injective after gc' (sym ran ∙ e)) (Collected-Stays stays c)

  perform-Stays :
      (call : GcCall) (calls : List GcCall) (gc gc' : GarbageCollector)
      → KeepsRoot (address + header_size) (call ∷ calls)
      → Stays address h gc
      → perform system_alloc call gc ≡ some gc'
      → Stays address h gc' × KeepsRoot (address + header_size) calls
  unfolding perform
  perform-Stays (allocate size type_tag) calls gc gc' keeps stays e = (
    after_alloc-Stays size type_tag gc gc' _ stays
        (alloc-Allocates system_alloc fresh size type_tag gc stays.heap) e,
    keeps,
  )
  perform-Stays (root ptr) calls gc gc' keeps stays e =
      (rw (← some-injective _ _ e) (add_root-Stays ptr stays), keeps)
  perform-Stays (unroot ptr) calls gc gc' keeps stays e =
      (rw (← some-injective _ _ e) (remove_root-Stays ptr keeps.0 stays), keeps.1)
  perform-Stays unroot_all calls gc gc' keeps stays e = absurd keeps
  perform-Stays collection calls gc gc' keeps stays e = (collect-Stays gc gc' stays e, keeps)

  perform_all-Stays :
      (calls : List GcCall) (gc gc' : GarbageCollector)
      → KeepsRoot (address + header_size) calls
      → Stays address h gc
      → perform_all system_alloc calls gc ≡ some gc'
      → Stays address h gc'
  unfolding perform_all
  perform_all-Stays [] gc gc' keeps stays e = rw (← some-injective _ _ e) stays
  perform_all-Stays (call ∷ calls) gc gc' keeps stays e =
      go (λ mid k s r. perform_all-Stays calls mid gc' k s r) (perform system_alloc call gc) refl
    where
      go :
          ((mid : GarbageCollector)
            → KeepsRoot (address + header_size) calls
            → Stays address h mid
            → perform_all system_alloc calls mid ≡ some gc'
            → Stays address h gc')
          → (r : Option GarbageCollector) → perform system_alloc call gc ≡ r
          → Stays address h gc'
      go rest none e' = absurd (cc (rw (e', perform_all) at e))
      go rest (some mid) e' =
          let (kept, later) = perform-Stays call calls gc mid keeps stays e' in
          rest mid later kept (rw (e', perform_all) at e)

  -- An object whose pointer is a root, in a collector in order, is there with the same header after
  -- any calls that return and do not drop this root: allocations, collections that they start, and
  -- changes of other roots. The collector is then in order again.
  pub perform_all-keeps :
      (calls : List GcCall) (gc gc' : GarbageCollector)
      → IsHeap gc
      → is_rooted gc.roots address ≡ true
      → lookup address gc.all_objects ≡ some h
      → KeepsRoot (address + header_size) calls
      → perform_all system_alloc calls gc ≡ some gc'
      → (lookup address gc'.all_objects ≡ some h) × IsHeap gc'
  perform_all-keeps calls gc gc' heap rooted there keeps ran =
      let stays =
        perform_all-Stays calls gc gc' keeps
          (record { heap = heap; rooted = rooted; there = there }) ran in
      (stays.there, stays.heap)
