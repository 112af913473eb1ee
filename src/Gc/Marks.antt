-- ===== src/Gc/Marks.antt =====
-- src/gc.rs: the mark phase.
use minilang_rs.Prelude.{
  ℕ, ◌+◌, ◌-◌, ◌≡◌, ◌≢◌, ◌∙◌, sym, refl, ap, Bool, true, false, ◌||◌, List, [], ◌∷◌, arith, ◌==◌,
  ==_iff, ==_refl, Bool-cases, inl, inr,
}
use minilang_rs.Gc.{GcHeader, Objects, is_gc_object, set_marked, mark_object, mark, header_size}
use minilang_rs.Gc.Heap.{AllIdle, is_rooted}

-- The objects with a mark where they had one or the test holds.
abbrev pub marks_where : (ℕ → Bool) → Objects → Objects
marks_where test [] = []
marks_where test ((address, h) ∷ objects) =
    (address, record h { marked = h.marked || test address }) ∷ marks_where test objects

-- Each object has an address of its own, which is not null.
abbrev pub Apart : Objects → Type 0
Apart [] = Unit
Apart ((address, h) ∷ objects) =
    (address ≢ 0) × (is_gc_object address objects ≡ false) × Apart objects

pub AllIdle-Apart : (objects : Objects) → AllIdle objects → Apart objects
AllIdle-Apart [] h = tt
AllIdle-Apart ((address, g) ∷ objects) (a, b, c, d, e) = (a, b, AllIdle-Apart objects e)

is_gc_object-marks_where :
    (header : ℕ) (test : ℕ → Bool) (objects : Objects)
    → is_gc_object header (marks_where test objects) ≡ is_gc_object header objects
unfolding is_gc_object
is_gc_object-marks_where header test [] = refl
is_gc_object-marks_where header test ((address, h) ∷ objects) =
    ground (arith, is_gc_object-marks_where header test objects)

Apart-marks_where :
    (test : ℕ → Bool) (objects : Objects) → Apart objects → Apart (marks_where test objects)
Apart-marks_where test [] h = tt
Apart-marks_where test ((address, g) ∷ objects) (a, b, c) =
    (a, is_gc_object-marks_where address test objects ∙ b, Apart-marks_where test objects c)

-- Marks compose.
or_true : (b : Bool) → (b || true) ≡ true
or_true true = refl
or_true false = refl

or_assoc : (a b c : Bool) → ((a || b) || c) ≡ (a || (b || c))
or_assoc true b c = refl
or_assoc false b c = refl

or_false : (b : Bool) → (b || false) ≡ b
or_false true = refl
or_false false = refl

remarked :
    (h : GcHeader) (a b c : Bool)
    → (a || b) ≡ c
    → record h { marked = (h.marked || a) || b } ≡ record h { marked = h.marked || c }
remarked h a b c e =
    ap (λ m. record h { marked = m }) (or_assoc h.marked a b ∙ ap (λ x. h.marked || x) e)

marks_where-marks_where :
    (f g test : ℕ → Bool) (objects : Objects)
    → ((address : ℕ) → (f address || g address) ≡ test address)
    → marks_where g (marks_where f objects) ≡ marks_where test objects
marks_where-marks_where f g test [] e = refl
marks_where-marks_where f g test ((address, h) ∷ objects) e =
    rw
      (
        remarked h (f address) (g address) (test address) (e address),
        marks_where-marks_where f g test objects e,
      )
      refl

marks_where-agree :
    (f g : ℕ → Bool) (objects : Objects)
    → ((address : ℕ) → is_gc_object address objects ≡ true → f address ≡ g address)
    → marks_where f objects ≡ marks_where g objects
unfolding is_gc_object
marks_where-agree f g [] e = refl
marks_where-agree f g ((address, h) ∷ objects) e =
    rw
      (
        e address (here (==_refl address)),
        marks_where-agree f g objects λ a there. e a (later a there),
      )
      refl
  where
    here : address == address ≡ true → is_gc_object address ((address, h) ∷ objects) ≡ true
    here same = rw (same, is_gc_object) refl

    later : (a : ℕ) → is_gc_object a objects ≡ true → is_gc_object a ((address, h) ∷ objects) ≡ true
    later a there = ground (arith, there)

marks_where-false : (objects : Objects) → marks_where (λ _. false) objects ≡ objects
marks_where-false [] = refl
marks_where-false ((address, h) ∷ objects) = rw (unmarked, marks_where-false objects) refl
  where
    unmarked : record h { marked = h.marked || false } ≡ h
    unmarked = ap (λ m. record h { marked = m }) (or_false h.marked)

marks_where-none :
    (test : ℕ → Bool) (objects : Objects)
    → ((address : ℕ) → is_gc_object address objects ≡ true → test address ≡ false)
    → marks_where test objects ≡ objects
marks_where-none test objects e =
    marks_where-agree test (λ _. false) objects e ∙ marks_where-false objects

set_marked-marks_where :
    (header : ℕ) (objects : Objects)
    → Apart objects
    → set_marked header objects ≡ marks_where (λ address. address == header) objects
unfolding set_marked
set_marked-marks_where header [] h = refl
set_marked-marks_where header ((address, g) ∷ objects) (a, b, c) =
    elim (Bool-cases (address == header)) [
      | inl e ↦
          let same =
            marks_where-none (λ q. q == header) objects
              λ q there. ground (arith, ==_iff address header, ==_iff q header, b) in
          rw (e, set_marked, same, or_true g.marked) refl
      | inr e ↦
          rw (e, set_marked, ← set_marked-marks_where header objects c, or_false g.marked) refl
    ]

Apart-ne :
    (address : ℕ) (objects : Objects)
    → Apart objects
    → is_gc_object address objects ≡ true
    → address ≢ 0
unfolding is_gc_object
Apart-ne address [] h there = absurd (cc there)
Apart-ne address ((q, g) ∷ objects) (a, b, c) there = elim (Bool-cases (q == address)) [
  | inl e ↦ rw (← (==_iff q address).0 e) a
  | inr e ↦ Apart-ne address objects c (rw (e, is_gc_object) at there)
]

-- A root marks the object whose pointer it is.
mark_object-marks_where :
    (ptr : ℕ) (objects : Objects)
    → Apart objects
    → mark_object ptr objects ≡ marks_where (λ address. ptr == address + header_size) objects
unfolding mark_object
mark_object-marks_where ptr objects h = elim (Bool-cases (ptr == 0)) [
  | inl e ↦ rw (e, mark_object) (sym (marks_where-none _ objects λ q there. ground (arith)))
  | inr e ↦ elim (Bool-cases (is_gc_object (ptr - header_size) objects)) [
    | inl there ↦
        rw (e, there, mark_object)
          (set_marked-marks_where (ptr - header_size) objects h
            ∙ marks_where-agree _ _ objects λ q known. ground (arith, Apart-ne q objects h known))
    | inr gone ↦
        rw (e, gone, mark_object)
          (sym (marks_where-none _ objects λ q known. ground (arith, gone, known)))
  ]
]

-- The mark phase marks the rooted objects, and nothing else.
pub mark-marks_where :
    (roots : List ℕ) (objects : Objects)
    → Apart objects
    → mark roots objects ≡ marks_where (is_rooted roots) objects
unfolding mark
mark-marks_where [] objects h = sym (marks_where-false objects)
mark-marks_where (root ∷ roots) objects h = rw (mark_object-marks_where root objects h) (
    mark-marks_where roots _ (Apart-marks_where _ objects h)
    ∙ marks_where-marks_where _ _ _ objects (λ address. refl))
