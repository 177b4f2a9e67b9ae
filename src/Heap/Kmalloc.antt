-- ===== src/Heap/Kmalloc.antt =====
-- `kmalloc` of kernel/memory.c on the list of blocks.
use native.Mathlib.Decide.{dec_le}
use krnel.Base.{
  ℕ, zero, suc, ◌+◌, ◌-◌, ◌%◌, ◌^◌, ◌≤◌, ◌<◌, ◌≡◌, refl, ◌∙◌, ap, sym, subst, true, false, ◌&&◌,
  Option, none, some, [], ◌∷◌, arith, leb, ◌==◌, length, Bool-cases, inl, inr,
}
use krnel.Heap.{
  Addr, Store, Heap, header, memory_end, write, take_block, probe, fits, skip, Alloc, null, ptr,
  kmalloc_loop, kmalloc, align_up, chain_fuel,
}
use krnel.Heap.Chain.{
  Cell, cell, Cells, head_addr, Holds, Tiled, IsHeap, le-Tiled, Holds-frame, carve, keep, first_fit,
}

-- What a search over the blocks `cs` from `base` on leaves, for the outcome of `first_fit`.
abbrev Outcome : Store → Addr → Addr → Cells → Option (Addr × Cells) → Store × Alloc → Type 0
Outcome h base limit cs none (h', r) = (h' ≡ h) × (r ≡ null)
Outcome h base limit cs (some (p, cs')) (h', r) =
    (r ≡ ptr p)
    × Holds h' cs'
    × Tiled base limit cs'
    × (head_addr cs' ≡ head_addr cs)
    × ((a : Addr) → a < base → h' a ≡ h a)

module _ (h : Store) (base size n next : ℕ) where
  take_block_big :
      n + 24 ≤ size
      → base + size < 2 ^ 32
      → take_block h base (header size next true) n
        ≡ write
            (write h (base + 16 + n) (header (size - n - 16) next true))
            base
            (header n (base + 16 + n) false)
  unfolding take_block
  take_block_big le lt =
      let w1 : (n + 16 + 8) % 2 ^ 32 ≡ n + 24 = omega arith in
      let w2 : (base + 16 + n) % 2 ^ 32 ≡ base + 16 + n = omega arith in
      let w3 : (2 ^ 32 + size - n - 16) % 2 ^ 32 ≡ size - n - 16 = omega arith in
      let w4 : leb (n + 24) size ≡ true = ground arith in rw (w1, w2, w3, w4)

  take_block_small :
      size < n + 24
      → n + 24 < 2 ^ 32
      → take_block h base (header size next true) n ≡ write h base (header size next false)
  unfolding take_block
  take_block_small le lt =
      let w1 : (n + 16 + 8) % 2 ^ 32 ≡ n + 24 = omega arith in
      let w4 : leb (n + 24) size ≡ false = ground arith in rw (w1, w4)

module _ (base size n : ℕ) (cs : Cells) where
  pub carve_big :
      n + 24 ≤ size
      → carve (cell base size true) n cs
        ≡ cell base n false ∷ cell (base + 16 + n) (size - n - 16) true ∷ cs
  unfolding carve
  carve_big le = let w : leb (n + 24) size ≡ true = ground arith in rw w

  pub carve_small : size < n + 24 → carve (cell base size true) n cs ≡ cell base size false ∷ cs
  unfolding carve
  carve_small le = let w : leb (n + 24) size ≡ false = ground arith in rw w

module _ (h : Store) (c : Cell) (n next : ℕ)
    (hc : h c.addr ≡ some (header c.size next c.free)) where
  probe_fits : (c.free && leb n c.size) ≡ true → probe h c.addr n ≡ fits (header c.size next true)
  unfolding probe
  probe_fits y = ground arith

  probe_skip : (c.free && leb n c.size) ≡ false → probe h c.addr n ≡ skip next
  unfolding probe
  probe_skip y = ground arith

module _ (h : Store) (limit : Addr) (n : ℕ) (small : limit ≤ memory_end) (al : n % 8 ≡ 0) where
  take_block_whole :
      (base size : ℕ) (cs : Cells)
      → Tiled base limit (cell base size true ∷ cs)
      → Holds h (cell base size true ∷ cs)
      → n ≤ size
      → size < n + 24
      → Outcome h base limit
          (cell base size true ∷ cs)
          (some (base + 16, cell base size false ∷ cs))
          (write h base (header size (head_addr cs) false), ptr (base + 16))
  unfolding write
  take_block_whole base size cs (e, m, t) (hc, hs) le lt = (
    refl,
    (ground arith, Holds-frame h _ (base + 16 + size) limit cs (λ a p. ground arith) t hs),
    (refl, m, t),
    refl,
    λ a p. ground arith,
  )

  take_block_split :
      (base size : ℕ) (cs : Cells)
      → Tiled base limit (cell base size true ∷ cs)
      → Holds h (cell base size true ∷ cs)
      → n + 24 ≤ size
      → Outcome h base limit
          (cell base size true ∷ cs)
          (some (base + 16, cell base n false ∷ cell (base + 16 + n) (size - n - 16) true ∷ cs))
          (
            write
                (write h (base + 16 + n) (header (size - n - 16) (head_addr cs) true))
                base
                (header n (base + 16 + n) false),
            ptr (base + 16),
          )
  unfolding write
  take_block_split base size cs (e, m, t) (hc, hs) le = (
    refl,
    (
      ground arith,
      (ground arith, Holds-frame h _ (base + 16 + size) limit cs (λ a p. ground arith) t hs),
    ),
    (refl, al, (refl, omega arith, rest)),
    refl,
    λ a p. ground arith,
  )
    where
      same : base + 16 + n + 16 + (size - n - 16) ≡ base + 16 + size
      same = omega arith

      rest : Tiled (base + 16 + n + 16 + (size - n - 16)) limit cs
      rest = rw same t

  take_block-Outcome :
      (base size : ℕ) (cs : Cells)
      → Tiled base limit (cell base size true ∷ cs)
      → Holds h (cell base size true ∷ cs)
      → n ≤ size
      → Outcome h base limit
          (cell base size true ∷ cs)
          (some (base + 16, carve (cell base size true) n cs))
          (take_block h base (header size (head_addr cs) true) n, ptr (base + 16))
  take_block-Outcome base size cs (e, m, t) (hc, hs) le =
      let below = le-Tiled (base + 16 + size) limit cs t in
      elim (dec_le (n + 24) size) [
        | yes p ↦
            rw
              (
                take_block_big h base size n (head_addr cs) p (omega arith),
                carve_big base size n cs p,
              )
              (take_block_split base size cs (e, m, t) (hc, hs) p)
        | no p ↦
            rw
              (
                take_block_small h base size n (head_addr cs) (omega arith) (omega arith),
                carve_small base size n cs (omega arith),
              )
              (take_block_whole base size cs (e, m, t) (hc, hs) le (omega arith))
      ]

  take_cell-Outcome :
      (base : ℕ) (c : Cell) (cs : Cells)
      → Tiled base limit (c ∷ cs)
      → Holds h (c ∷ cs)
      → c.free ≡ true
      → n ≤ c.size
      → Outcome h base limit
          (c ∷ cs)
          (some (c.addr + 16, carve c n cs))
          (take_block h c.addr (header c.size (head_addr cs) true) n, ptr (c.addr + 16))
  take_cell-Outcome base c cs (e, m, t) (hc, hs) fr le =
      let q : cell base c.size true ≡ c = ground arith in
      subst
        (λ (x : Cell).
          Tiled base limit (x ∷ cs)
          → Holds h (x ∷ cs)
          → Outcome h base limit (x ∷ cs) (some (x.addr + 16, carve x n cs))
              (take_block h x.addr (header x.size (head_addr cs) true) n, ptr (x.addr + 16)))
        q (λ t' hs'. take_block-Outcome base c.size cs t' hs' le) (e, m, t) (hc, hs)

  extend :
      (base : ℕ) (c : Cell) (cs : Cells) (o : Option (Addr × Cells)) (r : Store × Alloc)
      → Tiled base limit (c ∷ cs)
      → Holds h (c ∷ cs)
      → Outcome h (base + 16 + c.size) limit cs o r
      → Outcome h base limit (c ∷ cs) (keep c o) r
  extend base c cs none r t hs out = out
  extend base c cs (some (p, cs')) (h', r) (e, m, t) (hc, hs) (er, hs', t', hd, same) = (
    er,
    (same c.addr (omega arith) ∙ hc ∙ ap (λ x. some (header c.size x c.free)) (sym hd), hs'),
    (e, m, t'),
    refl,
    λ a p. same a (omega arith),
  )

  -- The search skips the blocks that `first_fit` skips.
  kmalloc_loop-Outcome :
      (fuel base : ℕ) (cs : Cells)
      → 0 < base
      → length cs < fuel
      → Tiled base limit cs
      → Holds h cs
      → Outcome h base limit cs (first_fit n cs) (kmalloc_loop fuel h (head_addr cs) n)
  unfolding kmalloc_loop first_fit
  kmalloc_loop-Outcome zero base cs pos lt t hs = absurd (omega arith)
  kmalloc_loop-Outcome (suc fuel) base [] pos lt t hs = (refl, refl)
  kmalloc_loop-Outcome (suc fuel) base (c ∷ cs) pos lt (e, m, t) (hc, hs) =
      let nz : (c.addr == 0) ≡ false = ground arith in
      elim (Bool-cases (c.free && leb n c.size)) [
        | inl y ↦
            rw (y, nz, probe_fits h c n (head_addr cs) hc y)
              (take_cell-Outcome base c cs (e, m, t) (hc, hs) (ground arith) (ground arith))
        | inr x ↦
            rw (x, nz, probe_skip h c n (head_addr cs) hc x)
              (extend base c cs (first_fit n cs) (kmalloc_loop fuel h (head_addr cs) n) (e, m, t)
                (hc, hs)
                (kmalloc_loop-Outcome fuel (base + 16 + c.size) cs (omega arith) (omega arith) t
                  hs))
      ]

-- What `kmalloc` leaves, for the outcome of `first_fit` on the heap's blocks.
abbrev pub Allocates : Heap → Option (Addr × Cells) → Heap × Alloc → Type 0
Allocates heap none (heap', r) = (heap' ≡ heap) × (r ≡ null)
Allocates heap (some (p, cs)) (heap', r) = (r ≡ ptr p) × IsHeap heap' cs

pub align_up_aligned : (size : ℕ) → align_up size % 8 ≡ 0
align_up_aligned size = omega arith

-- `kmalloc` of a positive size is first fit on the heap's list of blocks: it takes the first free block
-- that holds the aligned size and returns its payload, or returns NULL and leaves the heap alone. The
-- chain and the tiling of the heap stay intact.
pub kmalloc-first_fit :
    (heap : Heap) (cs : Cells) (size : ℕ)
    → IsHeap heap cs
    → 0 < size
    → Allocates heap (first_fit (align_up size) cs) (kmalloc heap size)
unfolding kmalloc
kmalloc-first_fit heap cs size v pos =
    let nz : (size == 0) ≡ false = ground arith in
    let ns : (heap.heap_start == 0) ≡ false = ground (arith, v.start_pos) in
    rw (nz, ns)
      (finish (first_fit (align_up size) cs) _ (
        subst
          (λ a.
            Outcome heap.store heap.heap_start memory_end cs (first_fit (align_up size) cs)
              (kmalloc_loop chain_fuel heap.store a (align_up size)))
          (sym v.start_head)
          (kmalloc_loop-Outcome heap.store memory_end (align_up size) (omega arith)
            (align_up_aligned size) chain_fuel heap.heap_start cs v.start_pos
            (omega (arith, le-Tiled heap.heap_start memory_end cs v.tiled, v.start_pos)) v.tiled
            v.holds)))
  where
    finish :
        (o : Option (Addr × Cells)) (r : Store × Alloc)
        → Outcome heap.store heap.heap_start memory_end cs o r
        → Allocates heap o (record heap { store = r.0 }, r.1)
    finish none (h', r) (e, e') = (ap (λ (s : Store). record heap { store = s }) e, e')
    finish (some (p, cs')) (h', r) (er, hs, t, hd, same) = (
      er,
      record {
        start_pos = v.start_pos;
        start_aligned = v.start_aligned;
        start_head = v.start_head ∙ sym hd;
        holds = hs;
        tiled = t;
      },
    )
