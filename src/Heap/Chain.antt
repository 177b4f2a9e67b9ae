-- ===== src/Heap/Chain.antt =====
-- The abstract view of the heap of kernel/memory.c: the list of its blocks in address order, which
-- tile the memory from the first header to the end.
use krnel.Base.{
  ℕ, ◌+◌, ◌-◌, ◌*◌, ◌%◌, ◌≤◌, ◌<◌, ◌≡◌, ◌∙◌, Bool, true, false, ◌&&◌, Option, none, some, List, [],
  ◌∷◌, arith, leb, if◌then◌else◌, length,
}
use krnel.Heap.{Addr, Store, Heap, header, memory_end}

pub record Cell : Type 0 where
  pub addr : Addr
  pub size : ℕ
  pub free : Bool

abbrev pub cell : Addr → ℕ → Bool → Cell
cell a n f = record { addr = a; size = n; free = f }

abbrev pub Cells : Type 0
Cells = List Cell

abbrev pub head_addr : Cells → Addr
head_addr [] = 0
head_addr (c ∷ cs) = c.addr

-- The headers in memory are those of the list, each linked to the next.
abbrev pub Holds : Store → Cells → Type 0
Holds h [] = Unit {0}
Holds h (c ∷ cs) = (h c.addr ≡ some (header c.size (head_addr cs) c.free)) × Holds h cs

-- The blocks lie side by side from `base` to `limit`, and their payloads are multiples of 8 bytes.
abbrev pub Tiled : Addr → Addr → Cells → Type 0
Tiled base limit [] = base ≡ limit
Tiled base limit (c ∷ cs) = (c.addr ≡ base) × (c.size % 8 ≡ 0) × Tiled (base + 16 + c.size) limit cs

-- The state of the heap, with its blocks.
pub record IsHeap (heap : Heap) (cs : Cells) : Type 0 where
  pub start_pos : 0 < heap.heap_start
  pub start_aligned : heap.heap_start % 8 ≡ 0
  pub start_head : heap.heap_start ≡ head_addr cs
  pub holds : Holds heap.store cs
  pub tiled : Tiled heap.heap_start memory_end cs

pub le-Tiled : (b l : Addr) (cs : Cells) → Tiled b l cs → b + 16 * length cs ≤ l
le-Tiled b l [] t = omega arith
le-Tiled b l (c ∷ cs) (e, a, t) = omega (arith, le-Tiled (b + 16 + c.size) l cs t)

-- Headers from `b` on survive a change below `b`.
pub Holds-frame :
    (h g : Store) (b l : Addr) (cs : Cells)
    → ((a : Addr) → b ≤ a → g a ≡ h a)
    → Tiled b l cs
    → Holds h cs
    → Holds g cs
Holds-frame h g b l [] same t hs = tt
Holds-frame h g b l (c ∷ cs) same (e, m, t) (hc, hs) = (
  same c.addr (omega arith) ∙ hc,
  Holds-frame h g (b + 16 + c.size) l cs (λ a p. same a (omega arith)) t hs,
)

-- First fit, on the list of blocks: the block's remainder is split off when it can hold a header and
-- eight bytes.
unfoldable pub carve : Cell → ℕ → Cells → Cells
carve c n cs =
    if leb (n + 24) c.size
    then cell c.addr n false ∷ cell (c.addr + 16 + n) (c.size - n - 16) true ∷ cs
    else cell c.addr c.size false ∷ cs

abbrev pub keep : Cell → Option (Addr × Cells) → Option (Addr × Cells)
keep c none = none
keep c (some (p, cs)) = some (p, c ∷ cs)

unfoldable pub first_fit : ℕ → Cells → Option (Addr × Cells)
unfolding carve
first_fit n [] = none
first_fit n (c ∷ cs) =
    let rest = keep c (first_fit n cs) in
    if c.free && leb n c.size then some (c.addr + 16, carve c n cs) else rest
