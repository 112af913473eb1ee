-- ===== src/Gc/Trace.antt =====
-- src/gc.rs: sequences of calls of the collector.
pub mod Stays
pub mod Keeps
use minilang_rs.Prelude.{
  ℕ, ◌+◌, ◌≤◌, ◌≡◌, ◌≢◌, refl, sym, ◌∙◌, Bool, true, false, List, [], ◌∷◌, Option, none, some,
  some-injective, arith, contains, lookup, length, ◌==◌, ==_iff, Bool-cases, inl, inr,
  if◌then◌else◌,
}
use minilang_rs.Limits.{usize_max}
use minilang_rs.Gc.{
  TypeTag, GcHeader, Objects, GarbageCollector, SystemAlloc, Allocation, allocated, exhausted,
  panicked, writes_null, new, link, alloc, collect, add_root, remove_root, clear_roots,
  remove_address, is_gc_object, header_size,
}
use minilang_rs.Gc.Heap.{IsHeap, is_rooted, keep_where, survivors}
use minilang_rs.Gc.Collect.{Collected, collect-Collected}
use minilang_rs.Gc.Alloc.{
  IsAllocator, Ready, as_it_was, after_collection, Ready-IsHeap, Allocates, gives, gives_up,
  goes_wrong, overflows, link-IsHeap, alloc-Allocates,
}

-- The public calls that change the collector.
pub data GcCall : Type 0 where
  allocate : ℕ → TypeTag → GcCall
  root : ℕ → GcCall
  unroot : ℕ → GcCall
  unroot_all : GcCall
  collection : GcCall

-- The collector after an allocation that has not gone wrong.
unfoldable pub after_alloc : Allocation → Option GarbageCollector
after_alloc (allocated ptr gc) = some gc
after_alloc (exhausted gc) = some gc
after_alloc panicked = none
after_alloc (writes_null gc) = none

module _ (system_alloc : SystemAlloc) where
  unfoldable pub perform : GcCall → GarbageCollector → Option GarbageCollector
  unfolding after_alloc alloc add_root remove_root clear_roots collect
  perform (allocate size type_tag) gc = after_alloc (alloc system_alloc size type_tag gc)
  perform (root ptr) gc = some (add_root ptr gc)
  perform (unroot ptr) gc = some (remove_root ptr gc)
  perform unroot_all gc = some (clear_roots gc)
  perform collection gc = collect gc

  unfoldable pub perform_all : List GcCall → GarbageCollector → Option GarbageCollector
  unfolding perform
  perform_all [] gc = some gc
  perform_all (call ∷ calls) gc = elim (perform call gc) [
    | none ↦ none
    | some gc' ↦ perform_all calls gc'
  ]
