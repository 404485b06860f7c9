-- ===== src/Heap.antt =====
-- The kernel heap, kernel_os/src/heap.cpp: a first-fit allocator over 64 KiB, its blocks in a
-- linked list of headers inside the area. An address is an offset into `heap_area`, whose start is
-- aligned to 8; `headers` is the header stored at each offset. A header takes 24 bytes: the size,
-- the flag with its padding, and the link.
pub mod Agrees
pub mod Stray
pub mod Freed
pub mod Given
pub mod Calls
pub mod Chain
pub mod Client
pub mod Free
pub mod Release
pub mod Joined
pub mod Pieces
pub mod Safety
pub mod Search
pub mod Taken
mod Tests
use operatingsystem.Common.{ℕ, zero, suc, ◌+◌, ◌-◌, ◌^◌, bit_and, u64, Option, none, some, write}
use operatingsystem.Common.{Bool, true, false, not, ◌&&◌, ◌||◌, ◌==◌, leb, ltb, if◌then◌else◌}

abbrev pub heap_size : ℕ
heap_size = 65536

abbrev pub heap_alignment : ℕ
heap_alignment = 8

abbrev pub header_size : ℕ
header_size = 24

pub record BlockHeader : Type 0 where
  pub size : ℕ
  pub free : Bool
  pub next : Option ℕ

pub record Heap : Type 0 where
  pub headers : ℕ → BlockHeader
  pub first_block : Option ℕ
  pub heap_initialized : Bool

unfoldable pub align_up : ℕ → ℕ
align_up value = bit_and (u64 (value + heap_alignment - 1)) (2 ^ 64 - heap_alignment)

unfoldable pub blocks_are_adjacent : (ℕ → BlockHeader) → ℕ → ℕ → Bool
blocks_are_adjacent headers first second = first + header_size + (headers first).size == second

unfoldable pub split_block : (ℕ → BlockHeader) → ℕ → ℕ → ℕ → BlockHeader
split_block headers block size =
    let old = headers block in
    let new_block = block + header_size + size in
    if ltb old.size (u64 (size + header_size + heap_alignment))
    then headers
    else write
        (write headers new_block
          (record { size = old.size - size - header_size; free = true; next = old.next }))
        block (record old { size = size; next = some new_block })

-- The loop of `coalesce_free_blocks` at `block`, with fuel for its rounds.
unfoldable pub coalesce_from : ℕ → Option ℕ → (ℕ → BlockHeader) → ℕ → BlockHeader
coalesce_from zero block headers = headers
coalesce_from (suc fuel) none headers = headers
coalesce_from (suc fuel) (some block) headers =
    let b = headers block in
    elim b.next [
      | none ↦ headers
      | some next ↦
          let n = headers next in
          elim (b.free && n.free && blocks_are_adjacent headers block next) [
            | true ↦ coalesce_from fuel (some block) (
                write headers block
                  (record b { size = u64 (b.size + (header_size + n.size)); next = n.next }))
            | false ↦ coalesce_from fuel (some next) headers
          ]
    ]

-- A chain of blocks in the area has at most `heap_size / header_size` of them.
abbrev pub max_blocks : ℕ
max_blocks = 2731

unfoldable pub coalesce_free_blocks : Heap → Heap
coalesce_free_blocks h = record h { headers = coalesce_from max_blocks h.first_block h.headers }

unfoldable pub init : Heap → Heap
init h = record h {
  headers = write h.headers 0 (record { size = heap_size - header_size; free = true; next = none });
  first_block = some 0;
  heap_initialized = true;
}

-- `block->free = flag`
unfoldable pub set_free : (ℕ → BlockHeader) → ℕ → Bool → ℕ → BlockHeader
set_free headers block flag = write headers block (record (headers block) { free = flag })

-- The loop of `kmalloc` at `block`, for the aligned size.
unfoldable pub malloc_from : ℕ → Option ℕ → ℕ → Heap → Option ℕ × Heap
malloc_from zero block size h = (none, h)
malloc_from (suc fuel) none size h = (none, h)
malloc_from (suc fuel) (some block) size h =
    let b = h.headers block in
    elim (b.free && leb size b.size) [
      | true ↦ (
        some (block + header_size),
        record h { headers = set_free (split_block h.headers block size) block false },
      )
      | false ↦ malloc_from fuel b.next size h
    ]

-- `none` is the null pointer.
unfoldable pub kmalloc : ℕ → Heap → Option ℕ × Heap
kmalloc size h =
    let ready = if not h.heap_initialized then init h else h in
    if (size == 0) || ltb (heap_size - header_size) size
    then (none, h)
    else malloc_from max_blocks ready.first_block (align_up size) ready

-- The loop of `kfree` at `block`, for the pointer `address`.
unfoldable pub free_from : ℕ → Option ℕ → ℕ → Heap → Heap
free_from zero block address h = h
free_from (suc fuel) none address h = h
free_from (suc fuel) (some block) address h = elim (block + header_size == address) [
  | true ↦ coalesce_free_blocks (record h { headers = set_free h.headers block true })
  | false ↦ free_from fuel (h.headers block).next address h
]

unfoldable pub kfree : Option ℕ → Heap → Heap
kfree none h = h
kfree (some address) h = free_from max_blocks h.first_block address h
