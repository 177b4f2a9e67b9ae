-- ===== src/Heap/Init.antt =====
-- `mem_init` of kernel/memory.c.
use krnel.Base.{◌+◌, ◌-◌, ◌≤◌, ◌<◌, refl, true, [], ◌∷◌, arith}
use krnel.Heap.{Addr, Store, memory_end, align_up, write, mem_init}
use krnel.Heap.Chain.{cell, IsHeap}

-- From the end of a kernel image that leaves room for a header below `MEMORY_END`, `mem_init` makes a
-- well-formed heap: one free block, aligned, up to `MEMORY_END`.
pub mem_init-IsHeap :
    (h : Store) (end : Addr)
    → 0 < end
    → end + 32 ≤ memory_end
    → IsHeap (mem_init h end) (cell (align_up end) (memory_end - align_up end - 16) true ∷ [])
unfolding mem_init write
mem_init-IsHeap h end pos room = record {
  start_pos = omega arith;
  start_aligned = omega arith;
  start_head = refl;
  holds = (ground arith, tt);
  tiled = (refl, omega arith, omega arith);
}
