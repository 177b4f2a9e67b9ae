-- ===== src/Heap/Undo.antt =====
-- `kfree` of kernel/memory.c after `kmalloc`.
use krnel.Base.{
  ℕ, ◌+◌, ◌-◌, ◌≤◌, ◌<◌, ◌≡◌, ap, sym, subst, Bool, true, false, ◌&&◌, Option, none, some, [], ◌∷◌,
  arith, leb, ◌==◌, if◌then◌else◌, Bool-cases, inl, inr,
}
use krnel.Heap.{Addr, Heap, memory_end, align_up, Alloc, ptr, kmalloc, kfree}
use krnel.Heap.Chain.{Cell, cell, Cells, Tiled, IsHeap, carve, keep, first_fit}
use krnel.Heap.Kmalloc.{Allocates, kmalloc-first_fit}
use krnel.Heap.Kfree.{has, merge, release, kfree-release}
use krnel.Heap.Live.{live, Grants, first_fit-Grants, live_below}

-- No two free blocks stand side by side.
abbrev pub NoPair : Cells → Type 0
NoPair [] = Unit {0}
NoPair (c ∷ []) = Unit {0}
NoPair (c ∷ d ∷ ds) = (c.free ≡ true → d.free ≡ false) × NoPair (d ∷ ds)

abbrev Undone : Addr → Cells → Option (Addr × Cells) → Type 0
Undone b cs none = Unit {0}
Undone b cs (some (p, cs')) = (b + 16 ≤ p) × (release (p - 16) cs' ≡ cs)

merge_alone :
    (c : Cell) (cs : Cells) → NoPair (c ∷ cs) → c.free ≡ true → merge c.addr c.size cs ≡ c ∷ cs
unfolding merge
merge_alone c [] np fr = ground arith
merge_alone c (d ∷ ds) np fr = ground (arith, np.0 fr)

NoPair-tail : (c : Cell) (cs : Cells) → NoPair (c ∷ cs) → NoPair cs
NoPair-tail c [] np = tt
NoPair-tail c (d ∷ ds) np = np.1

module _ (n limit : ℕ) where
  carve-Undone :
      (base : Addr) (c : Cell) (cs : Cells)
      → Tiled base limit (c ∷ cs)
      → NoPair (c ∷ cs)
      → c.free ≡ true
      → n ≤ c.size
      → Undone base (c ∷ cs) (some (c.addr + 16, carve c n cs))
  unfolding release merge carve
  carve-Undone base c cs (e, m, t) np fr le = elim (Bool-cases (leb (n + 24) c.size)) [
    | inl y ↦
        let hit : (c.addr == c.addr + 16 - 16) ≡ true = ground arith in
        rw (y, hit) (omega arith, ground arith)
    | inr x ↦
        let hit : (c.addr == c.addr + 16 - 16) ≡ true = ground arith in
        rw (x, hit) (omega arith, merge_alone c cs np fr)
  ]

  keep-Undone :
      (base : Addr) (c : Cell) (cs : Cells) (o : Option (Addr × Cells))
      → Tiled base limit (c ∷ cs)
      → Undone (base + 16 + c.size) cs o
      → Undone base (c ∷ cs) (keep c o)
  unfolding release
  keep-Undone base c cs none (e, m, t) u = tt
  keep-Undone base c cs (some (p, cs')) (e, m, t) (lo, u) =
      let ne : (c.addr == p - 16) ≡ false = ground arith in (omega arith, rw ne (ap (λ r. c ∷ r) u))

  first_fit-Undone :
      (base : Addr) (cs : Cells) → Tiled base limit cs → NoPair cs → Undone base cs (first_fit n cs)
  unfolding first_fit
  first_fit-Undone base [] t np = tt
  first_fit-Undone base (c ∷ cs) (e, m, t) np = elim (Bool-cases (c.free && leb n c.size)) [
    | inl y ↦ rw y (carve-Undone base c cs (e, m, t) np (ground arith) (ground arith))
    | inr x ↦ rw x (
        keep-Undone base c cs (first_fit n cs) (e, m, t)
          (first_fit-Undone (base + 16 + c.size) cs t (NoPair-tail c cs np)))
  ]

abbrev pub Restores : Cells → Heap → Alloc → Type 0
Restores cs heap' (ptr p) = IsHeap (kfree heap' p) cs
Restores cs heap' _ = Unit {0}

-- On a heap with no two neighbouring free blocks, `kfree` of what `kmalloc` has returned gives back
-- the blocks as they were before: the split is undone.
pub kfree-kmalloc :
    (heap : Heap) (cs : Cells) (size : ℕ)
    → IsHeap heap cs
    → NoPair cs
    → 0 < size
    → Restores cs (kmalloc heap size).0 (kmalloc heap size).1
kfree-kmalloc heap cs size v np pos =
    finish (first_fit (align_up size) cs)
      (first_fit-Grants (align_up size) memory_end heap.heap_start cs v.tiled)
      (first_fit-Undone (align_up size) memory_end heap.heap_start cs v.tiled np)
      (kmalloc heap size).0 (kmalloc heap size).1 (kmalloc-first_fit heap cs size v pos)
  where
    finish :
        (o : Option (Addr × Cells))
        → Grants (align_up size) heap.heap_start cs o
        → Undone heap.heap_start cs o
        → (heap' : Heap) (r : Alloc) → Allocates heap o (heap', r)
        → Restores cs heap' r
    finish none g u heap' r (e, er) = subst (λ x. Restores cs heap' x) (sym er) tt
    finish (some (p, cs')) g (lo, u) heap' r (er, v') =
        let w : p - 16 + 16 ≡ p = omega arith in
        subst (λ x. Restores cs heap' x) (sym er)
          (subst (λ x. IsHeap (kfree heap' p) x) u
            (subst (λ x. IsHeap (kfree heap' x) (release (p - 16) cs')) w
              (kfree-release heap' cs' (p - 16) v' g.present)))

merge_next :
    (a n : ℕ) (d : Cell) (ds : Cells)
    → d.free ≡ true
    → merge a n (d ∷ ds) ≡ cell a (n + 16 + d.size) true ∷ ds
unfolding merge
merge_next a n d ds y = ground arith

merge_none :
    (a n : ℕ) (d : Cell) (ds : Cells) → d.free ≡ false → merge a n (d ∷ ds) ≡ cell a n true ∷ d ∷ ds
unfolding merge
merge_none a n d ds y = ground arith

live-merge :
    (a x n b l : ℕ) (f : Bool) (cs : Cells)
    → Tiled b l (cell a n f ∷ cs)
    → live x (merge a n cs) ≡ (if a == x then none else live x cs)
unfolding live
live-merge a x n b l f [] t = unfold merge in ground arith
live-merge a x n b l f (d ∷ ds) (e, m, (e', m', t)) =
    let old = live_below (b + 16 + n + 16 + d.size) l a ds t (omega arith) in
    elim (Bool-cases d.free) [
      | inl y ↦ rw (merge_next a n d ds y) (merged old y)
      | inr z ↦ rw (merge_none a n d ds z) (apart old)
    ]
  where
    merged :
        live a ds ≡ none
        → d.free ≡ true
        → live x (cell a (n + 16 + d.size) true ∷ ds) ≡ (if a == x then none else live x (d ∷ ds))
    merged old y = ground arith

    apart :
        live a ds ≡ none
        → live x (cell a n true ∷ d ∷ ds) ≡ (if a == x then none else live x (d ∷ ds))
    apart old = ground arith

live-release :
    (b l a x : ℕ) (cs : Cells)
    → Tiled b l cs
    → live x (release a cs) ≡ (if a == x then none else live x cs)
unfolding release live
live-release b l a x [] t = ground arith
live-release b l a x (c ∷ cs) (e, m, t) = elim (Bool-cases (c.addr == a)) [
  | inl y ↦ rw y (
      ground (
        arith,
        live-merge c.addr x c.size b l c.free cs (e, m, t),
        live_below (b + 16 + c.size) l x cs t,
      ))
  | inr z ↦ rw z (
      ground
        (arith, live-release (b + 16 + c.size) l a x cs t, live_below (b + 16 + c.size) l a cs t))
]

-- `kfree` of the payload of a block of the heap takes exactly this block from the live ones, and leaves a
-- well-formed heap.
pub kfree-live :
    (heap : Heap) (cs : Cells) (a : Addr)
    → IsHeap heap cs
    → has a cs ≡ true
    → (cs' : Cells) × IsHeap (kfree heap (a + 16)) cs'
      × ((x : Addr) → live x cs' ≡ (if a == x then none else live x cs))
kfree-live heap cs a v is = (
  release a cs,
  kfree-release heap cs a v is,
  λ x. live-release heap.heap_start memory_end a x cs v.tiled,
)
