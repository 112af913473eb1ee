-- ===== src/Gc.antt =====
-- src/gc.rs: the mark and sweep collector.
-- An object is the address of its header with the header; the list of all objects follows the
-- `next` pointers. The bytes of the objects, the time spent, and the overflow of the statistics'
-- counters are left out. `none` is a panic of the checked build. The system allocator is a
-- parameter: the attempt, the objects there are and the size give an address, 0 for null.
pub mod Heap
pub mod Marks
pub mod Collect
pub mod Alloc
pub mod Trace
mod Examples
use minilang_rs.Prelude.{
  ℕ, ◌+◌, ◌-◌, ◌*◌, ◌/◌, Bool, true, false, List, [], ◌∷◌, Option, none, some, ltb, leb, not, ◌==◌,
  if◌then◌else◌, contains,
}
use minilang_rs.Limits.{usize_max}

pub data TypeTag : Type 0 where
  int_tag bool_tag int_array_tag closure_tag blob_tag : TypeTag

pub record GcHeader : Type 0 where
  pub size : ℕ
  pub marked : Bool
  pub type_tag : TypeTag

pub record GcStats : Type 0 where
  pub bytes_allocated : ℕ
  pub bytes_freed : ℕ
  pub objects_allocated : ℕ
  pub objects_freed : ℕ
  pub gc_cycles : ℕ

abbrev pub Objects : Type 0
Objects = List (ℕ × GcHeader)

pub record GarbageCollector : Type 0 where
  pub all_objects : Objects
  pub roots : List ℕ
  pub gc_threshold : ℕ
  pub bytes_allocated : ℕ
  pub stats : GcStats

-- `size_of::<GcHeader>()`: two words, the mark and the tag, padded to a word.
abbrev pub header_size : ℕ
header_size = 24

abbrev pub alignment : ℕ
alignment = 8

-- `(size + align - 1) & !(align - 1)`, for an alignment that is a power of two.
unfoldable pub align_up : ℕ → ℕ → ℕ
align_up size align = (size + align - 1) / align * align

-- The largest size that `Layout::from_size_align` takes at this alignment.
abbrev pub max_layout : ℕ
max_layout = 0x7fff_ffff_ffff_fff8

unfoldable pub total_size : ℕ → ℕ
unfolding align_up
total_size size = align_up (header_size + size) alignment

-- `GarbageCollector::new`
unfoldable pub new : ℕ → GarbageCollector
new gc_threshold = record {
  all_objects = [];
  roots = [];
  gc_threshold = gc_threshold;
  bytes_allocated = 0;
  stats = record {
    bytes_allocated = 0;
    bytes_freed = 0;
    objects_allocated = 0;
    objects_freed = 0;
    gc_cycles = 0;
  };
}

unfoldable pub remove_address : ℕ → List ℕ → List ℕ
remove_address ptr [] = []
remove_address ptr (r ∷ roots) =
    let rest = remove_address ptr roots in if r == ptr then rest else r ∷ rest

unfoldable pub add_root : ℕ → GarbageCollector → GarbageCollector
add_root ptr gc = record gc { roots = if contains ptr gc.roots then gc.roots else ptr ∷ gc.roots }

unfoldable pub remove_root : ℕ → GarbageCollector → GarbageCollector
unfolding remove_address
remove_root ptr gc = record gc { roots = remove_address ptr gc.roots }

unfoldable pub clear_roots : GarbageCollector → GarbageCollector
clear_roots gc = record gc { roots = [] }

-- The walk along the list of all objects.
unfoldable pub is_gc_object : ℕ → Objects → Bool
is_gc_object header [] = false
is_gc_object header ((current, h) ∷ rest) =
    let later = is_gc_object header rest in if current == header then true else later

-- `(*header).marked = true`, for a header of the list.
unfoldable pub set_marked : ℕ → Objects → Objects
set_marked header [] = []
set_marked header ((current, h) ∷ rest) =
    let later = set_marked header rest in
    if current == header then (current, record h { marked = true }) ∷ rest else (current, h) ∷ later

-- No tag has children. Below the size of a header there is no object, and the address that the
-- pointer is moved to is null here.
unfoldable pub mark_object : ℕ → Objects → Objects
unfolding is_gc_object set_marked
mark_object ptr objects =
    if ptr == 0
    then objects
    else if is_gc_object (ptr - header_size) objects
    then set_marked (ptr - header_size) objects
    else objects

unfoldable pub mark : List ℕ → Objects → Objects
unfolding mark_object
mark [] objects = objects
mark (root ∷ roots) objects = mark roots (mark_object root objects)

-- One object that is freed: the layout, the bytes and the counts.
unfoldable pub free_object : ℕ → GarbageCollector → Option GarbageCollector
free_object total gc =
    if ltb max_layout total
    then none
    else if ltb gc.bytes_allocated total
    then none
    else some (record gc {
      bytes_allocated = gc.bytes_allocated - total;
      stats = record gc.stats {
        bytes_freed = gc.stats.bytes_freed + total;
        objects_freed = gc.stats.objects_freed + 1;
      };
    })

-- The walk of the sweep: the objects that stay linked, in their order, with their marks cleared.
unfoldable pub sweep_objects : Objects → GarbageCollector → Option (Objects × GarbageCollector)
unfolding free_object total_size
sweep_objects [] gc = some ([], gc)
sweep_objects ((current, h) ∷ next) gc = elim h.marked [
  | true ↦ elim (sweep_objects next gc) [
    | none ↦ none
    | some (kept, gc') ↦ some ((current, record h { marked = false }) ∷ kept, gc')
  ]
  | false ↦ elim (free_object (total_size h.size) gc) [
    | none ↦ none
    | some gc' ↦ sweep_objects next gc'
  ]
]

-- The end of the sweep and the count of the cycle.
unfoldable pub count_cycle : Objects × GarbageCollector → GarbageCollector
count_cycle (kept, gc) = record gc {
  all_objects = kept;
  stats = record gc.stats { gc_cycles = gc.stats.gc_cycles + 1 };
}

-- `collect`, and `force_collect`.
unfoldable pub collect : GarbageCollector → Option GarbageCollector
unfolding mark sweep_objects count_cycle
collect gc = elim (sweep_objects (mark gc.roots gc.all_objects) gc) [
  | none ↦ none
  | some swept ↦ some (count_cycle swept)
]

-- What `alloc` does: it gives a pointer, gives up, panics, or writes a header at address 0.
pub data Allocation : Type 0 where
  allocated : ℕ → GarbageCollector → Allocation
  exhausted : GarbageCollector → Allocation
  panicked : Allocation
  writes_null : GarbageCollector → Allocation

-- The header is written and linked in, the bytes are counted.
unfoldable pub link : ℕ → ℕ → TypeTag → GarbageCollector → GarbageCollector
unfolding total_size
link address size type_tag gc = record gc {
  all_objects =
      (address, record { size = size; marked = false; type_tag = type_tag }) ∷ gc.all_objects;
  bytes_allocated = gc.bytes_allocated + total_size size;
  stats = record gc.stats {
    bytes_allocated = gc.stats.bytes_allocated + total_size size;
    objects_allocated = gc.stats.objects_allocated + 1;
  };
}

abbrev pub SystemAlloc : Type 0
SystemAlloc = ℕ → Objects → ℕ → ℕ

module _ (system_alloc : SystemAlloc) where
  -- The second attempt, whose pointer is bound in the inner block alone.
  unfoldable pub retry_alloc : ℕ → GarbageCollector → Allocation
  retry_alloc total gc =
      if system_alloc 1 gc.all_objects total == 0 then exhausted gc else writes_null gc

  unfoldable pub first_alloc : ℕ → TypeTag → GarbageCollector → Allocation
  unfolding retry_alloc link total_size collect
  first_alloc size type_tag gc =
      if system_alloc 0 gc.all_objects (total_size size) == 0
      then elim (collect gc) [ none ↦ panicked | some gc' ↦ retry_alloc (total_size size) gc' ]
      else allocated (system_alloc 0 gc.all_objects (total_size size) + header_size)
          (link (system_alloc 0 gc.all_objects (total_size size)) size type_tag gc)

  -- After the check of the threshold: the size and the layout.
  unfoldable pub alloc_sized : ℕ → TypeTag → GarbageCollector → Allocation
  unfolding first_alloc total_size
  alloc_sized size type_tag gc =
      if ltb usize_max (header_size + size + alignment - 1)
      then panicked
      else if ltb max_layout (total_size size)
      then exhausted gc
      else first_alloc size type_tag gc

  unfoldable pub alloc : ℕ → TypeTag → GarbageCollector → Allocation
  unfolding alloc_sized collect
  alloc size type_tag gc =
      if ltb usize_max (gc.bytes_allocated + size)
      then panicked
      else if ltb gc.gc_threshold (gc.bytes_allocated + size)
      then elim (collect gc) [ none ↦ panicked | some gc' ↦ alloc_sized size type_tag gc' ]
      else alloc_sized size type_tag gc
