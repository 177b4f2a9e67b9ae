-- ===== src/Heap.antt =====
-- kernel/memory.c: the kernel heap. A header `block_t` stands at an address, the `next` fields link
-- the headers into a chain, and the payload of a block follows its header.

pub mod Chain
pub mod Kmalloc
pub mod Kfree
pub mod Live
pub mod Undo
pub mod Wrap
pub mod Init
mod Tests
use krnel.Base.{
  ℕ, zero, suc, ◌+◌, ◌-◌, ◌*◌, ◌/◌, ◌%◌, ◌^◌, Bool, true, false, ◌&&◌, Option, none, some, leb,
  ◌==◌, if◌then◌else◌,
}

-- A `u32` address; 0 is NULL.
abbrev pub Addr : Type 0
Addr = ℕ

abbrev pub memory_end : ℕ
memory_end = 0x2000000

abbrev pub heap_magic : ℕ
heap_magic = 0xDEADBEEF

-- `block_t`: on the 32-bit target `sizeof(block_t)` is 16.
pub record Block : Type 0 where
  pub magic : ℕ
  pub size : ℕ
  pub next : Addr
  pub free : Bool

abbrev pub block_size : ℕ
block_size = 16

-- The headers in memory. `none` is memory that no header was written to: its first word is not the
-- magic number.
abbrev pub Store : Type 0
Store = Addr → Option Block

pub write : Store → Addr → Block → Store
write h p b a = if a == p then some b else h a

-- `(size + 7) & ~7` on `usize`: the sum wraps.
abbrev pub align_up : ℕ → ℕ
align_up size = (size + 7) % 2 ^ 32 / 8 * 8

pub record Heap : Type 0 where
  pub store : Store
  pub heap_start : Addr

-- A header that the allocator writes.
abbrev pub header : ℕ → Addr → Bool → Block
header size next free = record { magic = heap_magic; size = size; next = next; free = free }

-- One free block from the (aligned) end of the kernel image to `MEMORY_END`.
pub mem_init : Store → Addr → Heap
mem_init h end =
    let heap_addr = align_up end in
    let size = (2 ^ 32 + memory_end - heap_addr - block_size) % 2 ^ 32 in
    record { store = write h heap_addr (header size 0 true); heap_start = heap_addr }

-- The two writes that carve `size` bytes out of the block `b` at `current`, and its `free = 0`.
pub take_block : Store → Addr → Block → ℕ → Store
take_block h current b size =
    if leb ((size + block_size + 8) % 2 ^ 32) b.size
    then (let new_block = (current + block_size + size) % 2 ^ 32 in
        let rest = header ((2 ^ 32 + b.size - size - block_size) % 2 ^ 32) b.next true in
        let used : Block = record b { size = size; next = new_block; free = false } in
        write (write h new_block rest) current used)
    else write h current (record b { free = false })

-- What one round of the `while (current)` loop of `kmalloc` finds at `current`.
pub data Probe : Type 0 where
  corrupt : Probe
  fits : Block → Probe
  skip : Addr → Probe

pub probe : Store → Addr → ℕ → Probe
probe h current size = elim (h current) [
  | none ↦ corrupt
  | some b ↦
      if b.magic == heap_magic
      then (if b.free && leb size b.size then fits b else skip b.next)
      else corrupt
]

-- The result of `kmalloc`: out of fuel, `NULL` (corruption, out of memory, a request for nothing), or
-- the payload's address. The messages on the screen are left out.
pub data Alloc : Type 0 where
  out_of_fuel : Alloc
  null : Alloc
  ptr : Addr → Alloc

pub kmalloc_loop : ℕ → Store → Addr → ℕ → Store × Alloc
kmalloc_loop zero h current size = (h, out_of_fuel)
kmalloc_loop (suc fuel) h current size =
    let rest = λ (next : Addr). kmalloc_loop fuel h next size in
    if current == 0 then (h, null) else elim (probe h current size) [
      | corrupt ↦ (h, null)
      | fits b ↦ (take_block h current b size, ptr (current + block_size))
      | skip next ↦ rest next
    ]

-- Headers are 16 bytes apart at least, so the chain is shorter than this.
abbrev pub chain_fuel : ℕ
chain_fuel = memory_end

pub kmalloc : Heap → ℕ → Heap × Alloc
kmalloc heap size =
    if (size == 0)
    then (heap, null)
    else if heap.heap_start == 0
    then (heap, null)
    else (let (h, result) = kmalloc_loop chain_fuel heap.store heap.heap_start (align_up size) in
        (record heap { store = h }, result))

-- `kfree`'s forward coalescing at the freed block `b`.
pub coalesce : Store → Addr → Block → Store
coalesce h block b = if b.next == 0 then h else elim (h b.next) [
  | none ↦ h
  | some n ↦
      if n.free
      then write h block
          (record b { size = (b.size + block_size + n.size) % 2 ^ 32; next = n.next })
      else h
]

-- `(block_t*)ptr - 1`
abbrev pub header_of : Addr → Addr
header_of p = (p + 2 ^ 32 - block_size) % 2 ^ 32

pub kfree : Heap → Addr → Heap
kfree heap p = if p == 0 then heap else elim (heap.store (header_of p)) [
  | none ↦ heap
  | some b ↦
      if b.magic == heap_magic
      then (let freed = record b { free = true } in
          record heap {
            store = coalesce (write heap.store (header_of p) freed) (header_of p) freed;
          })
      else heap
]
