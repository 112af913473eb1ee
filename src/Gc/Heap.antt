-- ===== src/Gc/Heap.antt =====
-- src/gc.rs: the collector's invariant.
use minilang_rs.Prelude.{
  ℕ, ◌+◌, ◌≤◌, ◌≡◌, ◌≢◌, Bool, false, List, [], ◌∷◌, length, contains, if◌then◌else◌,
}
use minilang_rs.Gc.{Objects, GarbageCollector, is_gc_object, total_size, max_layout, header_size}

-- The bytes of the objects, headers included.
abbrev pub total : Objects → ℕ
total [] = 0
total ((address, h) ∷ objects) = total_size h.size + total objects

-- Every object has an address of its own, not null, and no mark; its layout can be given back.
abbrev pub AllIdle : Objects → Type 0
AllIdle [] = Unit
AllIdle ((address, h) ∷ objects) =
    (address ≢ 0)
    × (is_gc_object address objects ≡ false)
    × (h.marked ≡ false)
    × (total_size h.size ≤ max_layout)
    × AllIdle objects

-- The collector between two calls: its objects are idle, and its counts are theirs.
pub record IsHeap (gc : GarbageCollector) : Type 0 where
  pub idle : AllIdle gc.all_objects
  pub bytes : gc.bytes_allocated ≡ total gc.all_objects
  pub bytes_balance : gc.stats.bytes_allocated ≡ gc.bytes_allocated + gc.stats.bytes_freed
  pub objects_balance : gc.stats.objects_allocated ≡ length gc.all_objects + gc.stats.objects_freed

-- An object is rooted when the pointer behind its header is a root.
abbrev pub is_rooted : List ℕ → ℕ → Bool
is_rooted roots address = contains (address + header_size) roots

-- The objects that pass a test of their address, in their order.
abbrev pub keep_where : (ℕ → Bool) → Objects → Objects
keep_where test [] = []
keep_where test ((address, h) ∷ objects) =
    let rest = keep_where test objects in if test address then (address, h) ∷ rest else rest

abbrev pub survivors : GarbageCollector → Objects
survivors gc = keep_where (is_rooted gc.roots) gc.all_objects
