-- ===== src/Heap/Wrap.antt =====
-- Requests to `kmalloc` of kernel/memory.c near the top of the range of `usize`.
use krnel.Base.{
  ℕ, ◌+◌, ◌^◌, ◌<◌, ◌≡◌, ◌≢◌, sym, subst, Bool, true, false, ◌&&◌, Option, none, some, [], ◌∷◌,
  arith, leb, if◌then◌else◌, Bool-cases, inl, inr,
}
use krnel.Heap.{Addr, Heap, memory_end, align_up, Alloc, null, kmalloc}
use krnel.Heap.Chain.{Cell, Cells, IsHeap, keep, first_fit}
use krnel.Heap.Kmalloc.{Allocates, kmalloc-first_fit}

-- Any block of the heap is free.
abbrev pub some_free : Cells → Bool
some_free [] = false
some_free (c ∷ cs) = let rest = some_free cs in if c.free then true else rest

abbrev Takes : Option (Addr × Cells) → Type 0
Takes none = ⊥
Takes (some (p, cs')) = Unit {0}

keep-Takes : (c : Cell) (o : Option (Addr × Cells)) → Takes o → Takes (keep c o)
keep-Takes c none t = t
keep-Takes c (some (p, cs')) t = tt

first_fit-zero : (cs : Cells) → some_free cs ≡ true → Takes (first_fit 0 cs)
unfolding first_fit
first_fit-zero [] h = cc
first_fit-zero (c ∷ cs) h = elim (Bool-cases c.free) [
  | inl y ↦ let w : (c.free && leb 0 c.size) ≡ true = ground arith in rw w tt
  | inr x ↦
      let w : (c.free && leb 0 c.size) ≡ false = ground arith in
      rw w (keep-Takes c (first_fit 0 cs) (first_fit-zero cs (ground arith)))
]

-- `align_up` wraps on the seven largest sizes: while any block is free, `kmalloc` does not return NULL
-- for such a request, though it is larger than the whole memory.
pub kmalloc_wraps :
    (heap : Heap) (cs : Cells) (size : ℕ)
    → IsHeap heap cs
    → some_free cs ≡ true
    → 2 ^ 32 < size + 8
    → size < 2 ^ 32
    → (memory_end < size) × ((kmalloc heap size).1 ≢ null)
kmalloc_wraps heap cs size v fr lo hi =
    let w : align_up size ≡ 0 = omega arith in
    (
      omega arith,
      finish (first_fit (align_up size) cs)
          (subst (λ x. Takes (first_fit x cs)) (sym w) (first_fit-zero cs fr)) (kmalloc heap size).0
          (kmalloc heap size).1 (kmalloc-first_fit heap cs size v (omega arith)),
    )
  where
    finish :
        (o : Option (Addr × Cells))
        → Takes o
        → (heap' : Heap) (r : Alloc) → Allocates heap o (heap', r)
        → r ≢ null
    finish none t heap' r a = absurd t
    finish (some (p, cs')) t heap' r (er, v') = rw er (λ q. cc)
