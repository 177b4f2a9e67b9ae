-- ===== src/Heap/Kfree.antt =====
-- `kfree` of kernel/memory.c on the list of blocks.
use krnel.Base.{
  ℕ, ◌+◌, ◌%◌, ◌^◌, ◌≤◌, ◌<◌, ◌≡◌, refl, ◌∙◌, ap, sym, subst, Bool, true, false, none, some, [],
  ◌∷◌, arith, ◌==◌, if◌then◌else◌, Bool-cases, inl, inr, ◌⊎◌,
}
use krnel.Heap.{
  Addr, Store, Block, Heap, header, memory_end, heap_magic, write, coalesce, kfree, header_of,
}
use krnel.Heap.Chain.{Cell, cell, Cells, head_addr, Holds, Tiled, IsHeap, le-Tiled, Holds-frame}

-- Some block of the list has its header at `a`.
abbrev pub has : Addr → Cells → Bool
has a [] = false
has a (c ∷ cs) = let rest = has a cs in if c.addr == a then true else rest

-- A freed block in front of the rest of the list.
unfoldable pub merge : Addr → ℕ → Cells → Cells
merge a n [] = cell a n true ∷ []
merge a n (d ∷ ds) = if d.free then cell a (n + 16 + d.size) true ∷ ds else cell a n true ∷ d ∷ ds

unfoldable pub release : Addr → Cells → Cells
unfolding merge
release a [] = []
release a (c ∷ cs) =
    let rest = release a cs in if c.addr == a then merge c.addr c.size cs else c ∷ rest

-- `kfree` on the store, at a header.
abbrev freed : Store → Addr → Block → Store
freed h a b = coalesce (write h a (record b { free = true })) a (record b { free = true })

abbrev Frees : Store → Store → Addr → Addr → Cells → Cells → Type 0
Frees h g base limit cs cs' =
    Holds g cs'
    × Tiled base limit cs'
    × (head_addr cs' ≡ head_addr cs)
    × ((x : Addr) → x < base → g x ≡ h x)

module _ (h : Store) (base size next : ℕ) (f : Bool) (d : Cell) where
  freed_merge :
      base < d.addr
      → base + size + 16 + d.size < 2 ^ 32
      → h d.addr ≡ some (header d.size next true)
      → freed h base (header size d.addr f)
        ≡ write
            (write h base (header size d.addr true))
            base
            (header (size + 16 + d.size) next true)
  unfolding coalesce
  freed_merge lt small hd =
      let nz : (d.addr == 0) ≡ false = ground arith in
      let w : write h base (header size d.addr true) d.addr ≡ some (header d.size next true) =
        unfold write in ground arith in
      let m : (size + 16 + d.size) % 2 ^ 32 ≡ size + 16 + d.size = omega arith in rw (nz, w, m)

  freed_keep :
      base < d.addr
      → h d.addr ≡ some (header d.size next false)
      → freed h base (header size d.addr f) ≡ write h base (header size d.addr true)
  unfolding coalesce
  freed_keep lt hd =
      let nz : (d.addr == 0) ≡ false = ground arith in
      let w : write h base (header size d.addr true) d.addr ≡ some (header d.size next false) =
        unfold write in ground arith in
      rw (nz, w)

module _ (h : Store) (limit : Addr) (small : limit ≤ memory_end) where
  merge-Frees :
      (base size : ℕ) (f : Bool) (cs : Cells)
      → Tiled base limit (cell base size f ∷ cs)
      → Holds h (cell base size f ∷ cs)
      → Frees h
          (freed h base (header size (head_addr cs) f))
          base
          limit
          (cell base size f ∷ cs)
          (merge base size cs)
  unfolding merge write
  merge-Frees base size f [] (e, m, t) (hc, hs) =
      let w : freed h base (header size 0 f) ≡ write h base (header size 0 true) =
        unfold coalesce in refl in
      rw w ((ground arith, tt), (refl, m, t), refl, λ x p. ground arith)
  merge-Frees base size f (d ∷ ds) (e, m, (e', m', t)) (hc, (hd, hs)) =
      let below = le-Tiled (base + 16 + size + 16 + d.size) limit ds t in
      elim (Bool-cases d.free) [
        | inl y ↦
            let w =
              freed_merge h base size (head_addr ds) f d (omega arith) (omega arith)
                (hd ∙ ap (λ b. some (header d.size (head_addr ds) b)) y) in
            let r : base + 16 + size + 16 + d.size ≡ base + 16 + (size + 16 + d.size) =
              omega arith in
            rw (w, y)
              (
                (
                  ground arith,
                  Holds-frame h _ (base + 16 + size + 16 + d.size) limit ds (λ x p. ground arith) t
                      hs,
                ),
                (refl, omega arith, subst (λ b. Tiled b limit ds) r t),
                refl,
                λ x p. ground arith,
              )
        | inr n ↦
            let w =
              freed_keep h base size (head_addr ds) f d (omega arith)
                (hd ∙ ap (λ b. some (header d.size (head_addr ds) b)) n) in
            rw (w, n)
              (
                (
                  ground arith,
                  (
                    ground arith,
                    Holds-frame h _ (base + 16 + size + 16 + d.size) limit ds (λ x p. ground arith)
                        t hs,
                  ),
                ),
                (refl, m, (e', m', t)),
                refl,
                λ x p. ground arith,
              )
      ]

  merge_cell-Frees :
      (base : ℕ) (c : Cell) (cs : Cells)
      → Tiled base limit (c ∷ cs)
      → Holds h (c ∷ cs)
      → Frees h
          (freed h c.addr (header c.size (head_addr cs) c.free))
          base
          limit
          (c ∷ cs)
          (merge c.addr c.size cs)
  merge_cell-Frees base c cs (e, m, t) (hc, hs) =
      let q : cell base c.size c.free ≡ c = ground arith in
      subst
        (λ (x : Cell).
          Tiled base limit (x ∷ cs)
          → Holds h (x ∷ cs)
          → Frees h (freed h x.addr (header x.size (head_addr cs) x.free)) base limit (x ∷ cs)
              (merge x.addr x.size cs))
        q (λ t' hs'. merge-Frees base c.size c.free cs t' hs') (e, m, t) (hc, hs)

  release-Frees :
      (base a : ℕ) (cs : Cells)
      → Tiled base limit cs
      → Holds h cs
      → has a cs ≡ true
      → (b : Block) × (h a ≡ some b)
        × (b.magic ≡ heap_magic)
        × (base ≤ a)
        × (a + 16 ≤ limit)
        × Frees h (freed h a b) base limit cs (release a cs)
  unfolding release
  release-Frees base a [] t hs is = cc
  release-Frees base a (c ∷ cs) (e, m, t) (hc, hs) is = elim (Bool-cases (c.addr == a)) [
    | inl y ↦
        let q : c.addr ≡ a = ground arith in
        rw y (
          header c.size (head_addr cs) c.free,
          ap h (sym q) ∙ hc,
          refl,
          omega arith,
          omega (arith, le-Tiled (base + 16 + c.size) limit cs t),
          subst
              (λ x.
                Frees h (freed h x (header c.size (head_addr cs) c.free)) base limit (c ∷ cs)
                  (merge c.addr c.size cs))
              q (merge_cell-Frees base c cs (e, m, t) (hc, hs)),
        )
    | inr n ↦
        let (b, hb, mg, lo, hi, (hs', t', hd, same)) =
          release-Frees (base + 16 + c.size) a cs t hs (ground arith) in
        rw n (
          b,
          hb,
          mg,
          omega arith,
          hi,
          (
            (
              same c.addr (omega arith) ∙ hc ∙ ap (λ x. some (header c.size x c.free)) (sym hd),
              hs',
            ),
            (e, m, t'),
            refl,
            λ x p. same x (omega arith),
          ),
        )
  ]

kfree_header :
    (heap : Heap) (a : Addr) (b : Block)
    → a + 16 < 2 ^ 32
    → heap.store a ≡ some b
    → b.magic ≡ heap_magic
    → kfree heap (a + 16) ≡ record heap { store = freed heap.store a b }
unfolding kfree
kfree_header heap a b lt hb mg =
    let nz : (a + 16 == 0) ≡ false = ground arith in
    let w : header_of (a + 16) ≡ a = omega arith in
    let mb : (b.magic == heap_magic) ≡ true = ground arith in rw (nz, w, hb, mb, w)

-- `kfree` of the payload of a block of the heap frees that block, and merges it with the next block
-- if that is free. The chain and the tiling of the heap stay intact.
pub kfree-release :
    (heap : Heap) (cs : Cells) (a : Addr)
    → IsHeap heap cs
    → has a cs ≡ true
    → IsHeap (kfree heap (a + 16)) (release a cs)
kfree-release heap cs a v is =
    let (b, hb, mg, lo, hi, (hs, t, hd, same)) =
      release-Frees heap.store memory_end (omega arith) heap.heap_start a cs v.tiled v.holds is in
    subst (λ x. IsHeap x (release a cs)) (sym (kfree_header heap a b (omega arith) hb mg))
      (record {
        start_pos = v.start_pos;
        start_aligned = v.start_aligned;
        start_head = v.start_head ∙ sym hd;
        holds = hs;
        tiled = t;
      })

-- `kfree` of NULL, and of an address where no header stands, leaves the heap as it is.
pub kfree_invalid :
    (heap : Heap) (p : Addr) → (p ≡ 0) ⊎ (heap.store (header_of p) ≡ none) → kfree heap p ≡ heap
unfolding kfree
kfree_invalid heap p (inl e) = rw e
kfree_invalid heap p (inr e) = ground arith
