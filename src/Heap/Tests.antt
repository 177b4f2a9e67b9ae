-- ===== src/Heap/Tests.antt =====
-- Instances of what is proved of kernel/memory.c, on the heap behind a kernel image that ends at 1 MB.
use krnel.Base.{◌+◌, ◌-◌, ◌<◌, ◌≡◌, ◌≢◌, refl, true, none, if◌then◌else◌, ◌==◌, [], ◌∷◌, arith}
use krnel.Heap.{Addr, Store, Heap, memory_end, align_up, null, mem_init, kmalloc, kfree}
use krnel.Heap.Chain.{Cells, cell, IsHeap, first_fit}
use krnel.Heap.Kmalloc.{Allocates, kmalloc-first_fit}
use krnel.Heap.Kfree.{kfree-release, release, has}
use krnel.Heap.Live.{Serves, live, kmalloc-Serves}
use krnel.Heap.Undo.{Restores, kfree-kmalloc, kfree-live}
use krnel.Heap.Wrap.{kmalloc_wraps}
use krnel.Heap.Init.{mem_init-IsHeap}

abbrev no_headers : Store
no_headers a = none

abbrev heap : Heap
heap = mem_init no_headers 0x100000

abbrev cells : Cells
cells = cell (align_up 0x100000) (memory_end - align_up 0x100000 - 16) true ∷ []

heap-IsHeap : IsHeap heap cells
heap-IsHeap = mem_init-IsHeap no_headers 0x100000 (omega arith) (omega arith)

mem_init-IsHeap_example : IsHeap heap cells
mem_init-IsHeap_example = mem_init-IsHeap no_headers 0x100000 (omega arith) (omega arith)

kmalloc-Serves_example : Serves heap cells 100 (kmalloc heap 100).0 (kmalloc heap 100).1
kmalloc-Serves_example = kmalloc-Serves heap cells 100 heap-IsHeap (omega arith) (omega arith)

kmalloc-first_fit_example : Allocates heap (first_fit (align_up 100) cells) (kmalloc heap 100)
kmalloc-first_fit_example = kmalloc-first_fit heap cells 100 heap-IsHeap (omega arith)

kfree-kmalloc_example : Restores cells (kmalloc heap 100).0 (kmalloc heap 100).1
kfree-kmalloc_example = kfree-kmalloc heap cells 100 heap-IsHeap tt (omega arith)

-- The one block of the heap.
abbrev first : Addr
first = align_up 0x100000

first-has : has first cells ≡ true
first-has = ground arith

kfree-release_example : IsHeap (kfree heap (first + 16)) (release first cells)
kfree-release_example = kfree-release heap cells first heap-IsHeap first-has

kfree-live_example :
    (cs : Cells) × IsHeap (kfree heap (first + 16)) cs
    × ((x : Addr) → live x cs ≡ (if first == x then none else live x cells))
kfree-live_example = kfree-live heap cells first heap-IsHeap first-has

kmalloc_wraps_example : (memory_end < 0xFFFFFFFC) × ((kmalloc heap 0xFFFFFFFC).1 ≢ null)
kmalloc_wraps_example =
    kmalloc_wraps heap cells 0xFFFFFFFC heap-IsHeap refl (omega arith) (omega arith)
