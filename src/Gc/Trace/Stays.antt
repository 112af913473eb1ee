-- ===== src/Gc/Trace/Stays.antt =====
-- src/gc.rs: a rooted object across one call.
use minilang_rs.Prelude.{
  ℕ, ◌+◌, ◌≡◌, ◌≢◌, refl, ◌∙◌, Bool, true, false, List, [], ◌∷◌, some, arith, contains, lookup,
  ◌==◌, ==_iff,
}
use minilang_rs.Gc.{
  TypeTag, GcHeader, Objects, GarbageCollector, link, add_root, remove_root, remove_address,
  is_gc_object, header_size,
}
use minilang_rs.Gc.Heap.{IsHeap, is_rooted, keep_where}
use minilang_rs.Gc.Collect.{Collected}
use minilang_rs.Gc.Alloc.{Ready, as_it_was, after_collection}

lookup-keep_where :
    (test : ℕ → Bool) (address : ℕ) (objects : Objects)
    → test address ≡ true
    → lookup address (keep_where test objects) ≡ lookup address objects
lookup-keep_where test address [] e = refl
lookup-keep_where test address ((q, g) ∷ objects) e =
    ground (arith, lookup-keep_where test address objects, ==_iff q address)

is_gc_object-lookup :
    (address : ℕ) (h : GcHeader) (objects : Objects)
    → lookup address objects ≡ some h
    → is_gc_object address objects ≡ true
unfolding is_gc_object
is_gc_object-lookup address h [] e = absurd (cc e)
is_gc_object-lookup address h ((q, g) ∷ objects) e =
    ground (arith, is_gc_object-lookup address h objects)

contains-remove_address :
    (ptr other : ℕ) (roots : List ℕ)
    → other ≢ ptr
    → contains ptr roots ≡ true
    → contains ptr (remove_address other roots) ≡ true
unfolding remove_address
contains-remove_address ptr other [] ne e = absurd (cc e)
contains-remove_address ptr other (r ∷ roots) ne e =
    ground (arith, contains-remove_address ptr other roots ne, ==_iff r other, ==_iff r ptr)

-- The object is there as it was, and its pointer is a root.
pub record Stays (address : ℕ) (h : GcHeader) (gc : GarbageCollector) : Type 0 where
  pub heap : IsHeap gc
  pub rooted : is_rooted gc.roots address ≡ true
  pub there : lookup address gc.all_objects ≡ some h

module _ {address : ℕ} {h : GcHeader} where
  pub Collected-Stays :
      {gc gc' : GarbageCollector} → Stays address h gc → Collected gc gc' → Stays address h gc'
  Collected-Stays {gc} stays c = record {
    heap = c.heap;
    rooted = rw c.roots stays.rooted;
    there =
        rw c.objects (
          lookup-keep_where (is_rooted gc.roots) address gc.all_objects stays.rooted ∙ stays.there);
  }

  pub Ready-Stays :
      {gc gc' : GarbageCollector} → Stays address h gc → Ready gc gc' → Stays address h gc'
  Ready-Stays stays as_it_was = stays
  Ready-Stays stays (after_collection ready c) = Collected-Stays (Ready-Stays stays ready) c

  pub link-Stays :
      {gc : GarbageCollector} (new_address size : ℕ) (type_tag : TypeTag)
      → Stays address h gc
      → IsHeap (link new_address size type_tag gc)
      → is_gc_object new_address gc.all_objects ≡ false
      → Stays address h (link new_address size type_tag gc)
  unfolding link
  link-Stays {gc} new_address size type_tag stays heap fresh = record {
    heap = heap;
    rooted = stays.rooted;
    there = rw (other) stays.there;
  }
    where
      other : new_address == address ≡ false
      other = ground (
        arith,
        is_gc_object-lookup address h gc.all_objects stays.there,
        ==_iff new_address address,
      )

  pub add_root-Stays :
      {gc : GarbageCollector} (ptr : ℕ) → Stays address h gc → Stays address h (add_root ptr gc)
  unfolding add_root
  add_root-Stays {gc} ptr stays = record {
    heap = record {
      idle = stays.heap.idle;
      bytes = stays.heap.bytes;
      bytes_balance = stays.heap.bytes_balance;
      objects_balance = stays.heap.objects_balance;
    };
    rooted = ground (arith, stays.rooted);
    there = stays.there;
  }

  pub remove_root-Stays :
      {gc : GarbageCollector} (ptr : ℕ)
      → ptr ≢ address + header_size
      → Stays address h gc
      → Stays address h (remove_root ptr gc)
  unfolding remove_root
  remove_root-Stays {gc} ptr ne stays = record {
    heap = record {
      idle = stays.heap.idle;
      bytes = stays.heap.bytes;
      bytes_balance = stays.heap.bytes_balance;
      objects_balance = stays.heap.objects_balance;
    };
    rooted = contains-remove_address (address + header_size) ptr gc.roots ne stays.rooted;
    there = stays.there;
  }
