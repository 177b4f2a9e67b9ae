-- ===== src/Heap/Live.antt =====
-- What a client of kernel/memory.c sees: the live blocks and their payloads.
use krnel.Base.{
  ℕ, ◌+◌, ◌-◌, ◌%◌, ◌^◌, ◌≤◌, ◌<◌, ◌≡◌, refl, sym, subst, true, false, ◌&&◌, not, Option, none,
  some, [], ◌∷◌, arith, leb, ◌==◌, if◌then◌else◌, Bool-cases, inl, inr,
}
use krnel.Heap.{Addr, Heap, memory_end, align_up, Alloc, out_of_fuel, null, ptr, kmalloc}
use krnel.Heap.Chain.{Cell, Cells, Tiled, IsHeap, le-Tiled, carve, keep, first_fit}
use krnel.Heap.Kmalloc.{Allocates, kmalloc-first_fit}
use krnel.Heap.Kfree.{has}

-- The size of the live block with its header at `a`.
unfoldable pub live : Addr → Cells → Option ℕ
live a [] = none
live a (c ∷ cs) = let rest = live a cs in if c.addr == a && not c.free then some c.size else rest

-- No free block holds `n` bytes.
abbrev pub TooSmall : ℕ → Cells → Type 0
TooSmall n [] = Unit {0}
TooSmall n (c ∷ cs) = (c.free ≡ true → c.size < n) × TooSmall n cs

-- `cs'` is `cs` with one more live block of `got` bytes, whose payload is at `p`.
pub record Adds (n : ℕ) (base : Addr) (cs : Cells) (p : Addr) (cs' : Cells) : Type 0 where
  pub got : ℕ
  pub enough : n ≤ got
  pub tight : got < n + 24
  pub above : base + 16 ≤ p
  pub aligned : base % 8 ≡ 0 → p % 8 ≡ 0
  pub new : live (p - 16) cs ≡ none
  pub present : has (p - 16) cs' ≡ true
  pub others : (a : Addr) → live a cs' ≡ (if a + 16 == p then some got else live a cs)

abbrev pub Grants : ℕ → Addr → Cells → Option (Addr × Cells) → Type 0
Grants n base cs none = TooSmall n cs
Grants n base cs (some (p, cs')) = Adds n base cs p cs'

pub live_below : (b l a : Addr) (cs : Cells) → Tiled b l cs → a < b → live a cs ≡ none
unfolding live
live_below b l a [] t lt = refl
live_below b l a (c ∷ cs) (e, m, t) lt =
    let ne : (c.addr == a) ≡ false = ground arith in
    rw ne (live_below (b + 16 + c.size) l a cs t (omega arith))

module _ (n limit : ℕ) where
  carve-Adds :
      (base : Addr) (c : Cell) (cs : Cells)
      → Tiled base limit (c ∷ cs)
      → c.free ≡ true
      → n ≤ c.size
      → Adds n base (c ∷ cs) (c.addr + 16) (carve c n cs)
  unfolding live carve
  carve-Adds base c cs (e, m, t) fr le =
      let old = live_below (base + 16 + c.size) limit (c.addr + 16 - 16) cs t (omega arith) in
      elim (Bool-cases (leb (n + 24) c.size)) [
        | inl y ↦ rw y (record {
          got = n;
          enough = omega arith;
          tight = omega arith;
          above = omega arith;
          aligned = λ al. omega arith;
          new = ground (arith, old);
          present = ground arith;
          others = λ a. ground arith;
        })
        | inr x ↦ rw x (record {
          got = c.size;
          enough = le;
          tight = ground arith;
          above = omega arith;
          aligned = λ al. omega arith;
          new = ground (arith, old);
          present = ground arith;
          others = λ a. ground arith;
        })
      ]

  keep-Grants :
      (base : Addr) (c : Cell) (cs : Cells) (o : Option (Addr × Cells))
      → Tiled base limit (c ∷ cs)
      → (c.free && leb n c.size) ≡ false
      → Grants n (base + 16 + c.size) cs o
      → Grants n base (c ∷ cs) (keep c o)
  unfolding live
  keep-Grants base c cs none (e, m, t) no' g = (λ fr. ground arith, g)
  keep-Grants base c cs (some (p, cs')) (e, m, t) no' g = record {
    got = g.got;
    enough = g.enough;
    tight = g.tight;
    above = omega (arith, g.above);
    aligned = λ al. g.aligned (omega arith);
    new = let ne : (c.addr == p - 16) ≡ false = ground (arith, g.above) in rw ne g.new;
    present = let ne : (c.addr == p - 16) ≡ false = ground (arith, g.above) in rw ne g.present;
    others = λ a. ground (arith, g.others a, g.above);
  }

  pub first_fit-Grants :
      (base : Addr) (cs : Cells) → Tiled base limit cs → Grants n base cs (first_fit n cs)
  unfolding first_fit
  first_fit-Grants base [] t = tt
  first_fit-Grants base (c ∷ cs) (e, m, t) = elim (Bool-cases (c.free && leb n c.size)) [
    | inl y ↦ rw y (carve-Adds base c cs (e, m, t) (ground arith) (ground arith))
    | inr x ↦ rw x (
        keep-Grants base c cs (first_fit n cs) (e, m, t) x
          (first_fit-Grants (base + 16 + c.size) cs t))
  ]

-- What `kmalloc` returns to a client that asks for `size` bytes on a heap of blocks `cs`.
abbrev pub Serves : Heap → Cells → ℕ → Heap → Alloc → Type 0
Serves heap cs size heap' out_of_fuel = ⊥
Serves heap cs size heap' null = (heap' ≡ heap) × TooSmall (align_up size) cs
Serves heap cs size heap' (ptr p) =
    (cs' : Cells) × IsHeap heap' cs'
    × Adds (align_up size) heap.heap_start cs p cs'
    × (size ≤ align_up size)
    × (p % 8 ≡ 0)

-- A positive request that `align_up` does not wrap is served: `kmalloc` ends, and it returns NULL and leaves
-- the heap alone only if no free block holds the request; else it returns the aligned payload of a block
-- of at least the size asked for and less than 24 bytes more than its aligned size. This block was not
-- live before, and every other live block is as before.
pub kmalloc-Serves :
    (heap : Heap) (cs : Cells) (size : ℕ)
    → IsHeap heap cs
    → 0 < size
    → size + 8 ≤ 2 ^ 32
    → Serves heap cs size (kmalloc heap size).0 (kmalloc heap size).1
kmalloc-Serves heap cs size v pos lt =
    finish (first_fit (align_up size) cs)
      (first_fit-Grants (align_up size) memory_end heap.heap_start cs v.tiled) (kmalloc heap size).0
      (kmalloc heap size).1 (kmalloc-first_fit heap cs size v pos)
  where
    finish :
        (o : Option (Addr × Cells))
        → Grants (align_up size) heap.heap_start cs o
        → (heap' : Heap) (r : Alloc) → Allocates heap o (heap', r)
        → Serves heap cs size heap' r
    finish none g heap' r (e, er) = subst (λ x. Serves heap cs size heap' x) (sym er) (e, g)
    finish (some (p, cs')) g heap' r (er, v') =
        subst (λ x. Serves heap cs size heap' x) (sym er)
          (cs', v', g, omega arith, g.aligned v.start_aligned)

live_within :
    (b l : Addr) (cs : Cells) (a n : ℕ)
    → Tiled b l cs
    → live a cs ≡ some n
    → (b ≤ a) × (a + 16 + n ≤ l)
unfolding live
live_within b l [] a n t h = cc
live_within b l (c ∷ cs) a n (e, m, t) h =
    let below = le-Tiled (b + 16 + c.size) l cs t in
    elim (Bool-cases (c.addr == a && not c.free)) [
      | inl y ↦ ground arith
      | inr x ↦
          let (lo, hi) = live_within (b + 16 + c.size) l cs a n t (rw x at h) in (omega arith, hi)
    ]

live_apart :
    (b l : Addr) (cs : Cells) (a a' n n' : ℕ)
    → Tiled b l cs
    → live a cs ≡ some n
    → live a' cs ≡ some n'
    → a < a'
    → a + 16 + n ≤ a'
unfolding live
live_apart b l [] a a' n n' t h h' lt = cc
live_apart b l (c ∷ cs) a a' n n' (e, m, t) h h' lt =
    elim (Bool-cases (c.addr == a' && not c.free)) [
      | inl y' ↦ elim (Bool-cases (c.addr == a && not c.free)) [
        | inl y ↦ absurd (ground arith)
        | inr x ↦ absurd (ground (arith, live_within (b + 16 + c.size) l cs a n t (rw x at h)))
      ]
      | inr x' ↦ elim (Bool-cases (c.addr == a && not c.free)) [
        | inl y ↦ ground (arith, live_within (b + 16 + c.size) l cs a' n' t (rw x' at h'))
        | inr x ↦ live_apart (b + 16 + c.size) l cs a a' n n' t (rw x at h) (rw x' at h') lt
      ]
    ]

-- Two live payloads of a well-formed heap do not overlap: the lower one ends before the header of the
-- upper one, which ends within the heap's memory.
pub live_disjoint :
    (heap : Heap) (cs : Cells) (a a' n n' : ℕ)
    → IsHeap heap cs
    → live a cs ≡ some n
    → live a' cs ≡ some n'
    → a < a'
    → (heap.heap_start ≤ a) × (a + 16 + n ≤ a') × (a' + 16 + n' ≤ memory_end)
live_disjoint heap cs a a' n n' v h h' lt = (
  (live_within heap.heap_start memory_end cs a n v.tiled h).0,
  live_apart heap.heap_start memory_end cs a a' n n' v.tiled h h' lt,
  (live_within heap.heap_start memory_end cs a' n' v.tiled h').1,
)
