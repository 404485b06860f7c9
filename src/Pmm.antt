-- ===== src/Pmm.antt =====
-- The physical memory manager, kernel_os/src/pmm.cpp and kernel_os/include/pmm.h.
-- `bitmap` is the memory behind the bitmap's address, byte by byte: bit `p % 8` of byte `p / 8` is
-- set when page `p` is taken. Counters and addresses are 64-bit.
pub mod Alloc
pub mod Bitmap
pub mod Frame
pub mod Free
pub mod Reserve
pub mod Runs
pub mod Spent
pub mod Steps
mod Tests
pub mod Valid
use operatingsystem.Common.{ℕ, zero, suc, ◌+◌, ◌-◌, ◌*◌, ◌/◌, ◌%◌, ◌^◌, bit_and, bit_or, u8, u64}
use operatingsystem.Common.{
  Bool, true, false, not, ◌&&◌, ◌||◌, if◌then◌else◌, ltb, leb, ◌==◌, write,
}

abbrev pub page_size : ℕ
page_size = 4096

abbrev pub uintptr_max : ℕ
uintptr_max = 2 ^ 64 - 1

pub record Pmm : Type 0 where
  pub bitmap : ℕ → ℕ
  pub total_pages : ℕ
  pub free_pages : ℕ
  pub search_hint : ℕ

-- `~(1u << (bit % 8))` is taken in 32 bits, and each store narrows to a byte.
unfoldable pub set_bit : (ℕ → ℕ) → ℕ → ℕ → ℕ
set_bit bitmap b = write bitmap (b / 8) (u8 (bit_or (bitmap (b / 8)) (2 ^ (b % 8))))

unfoldable pub clear_bit : (ℕ → ℕ) → ℕ → ℕ → ℕ
clear_bit bitmap b = write bitmap (b / 8) (u8 (bit_and (bitmap (b / 8)) (2 ^ 32 - 1 - 2 ^ (b % 8))))

unfoldable pub test_bit : (ℕ → ℕ) → ℕ → Bool
test_bit bitmap b = not (bit_and (bitmap (b / 8)) (2 ^ (b % 8)) == 0)

-- `set_bit(page); free_pages--;`
unfoldable pub take_page : Pmm → ℕ → Pmm
take_page s page = record s {
  bitmap = set_bit s.bitmap page;
  free_pages = u64 (s.free_pages + 2 ^ 64 - 1);
}

-- `clear_bit(page); free_pages++;`
unfoldable pub give_page : Pmm → ℕ → Pmm
give_page s page = record s {
  bitmap = clear_bit s.bitmap page;
  free_pages = u64 (s.free_pages + 1);
}

-- The loop of `pmm_mark_reserved`, from `page`, with rounds for at least `total_pages - page`.
unfoldable pub reserve_pages : ℕ → ℕ → ℕ → Pmm → Pmm
reserve_pages zero page end_page s = s
reserve_pages (suc rounds) page end_page s = elim (ltb page end_page && ltb page s.total_pages) [
  | true ↦
      reserve_pages rounds (u64 (page + 1)) end_page
        (if not (test_bit s.bitmap page) then take_page s page else s)
  | false ↦ s
]

unfoldable pub mark_reserved : ℕ → ℕ → Pmm → Pmm
unfolding reserve_pages
mark_reserved base_addr length_bytes s =
    let start_page = base_addr / page_size in
    let last_byte = length_bytes - 1 in
    let end_page =
      if ltb (uintptr_max - base_addr) last_byte
      then s.total_pages
      else (base_addr + last_byte) / page_size + 1 in
    if length_bytes == 0 || leb (u64 (s.total_pages * page_size)) base_addr
    then s
    else reserve_pages s.total_pages start_page end_page s

-- `for (i = 0; i < n; i++) bitmap[i] = 0x00`
unfoldable pub zero_bytes : ℕ → (ℕ → ℕ) → ℕ → ℕ
zero_bytes zero bitmap = bitmap
zero_bytes (suc n) bitmap = write (zero_bytes n bitmap) n 0

unfoldable pub bitmap_bytes : ℕ → ℕ
bitmap_bytes page_count = u64 (page_count + 7) / 8

-- `before` is what the memory at `bitmap_addr` holds when the kernel starts.
unfoldable pub init : (ℕ → ℕ) → ℕ → ℕ → Pmm
unfolding zero_bytes bitmap_bytes mark_reserved
init before bitmap_addr page_count =
    let bytes = bitmap_bytes page_count in
    let fresh : Pmm = record {
      bitmap = zero_bytes bytes before;
      total_pages = page_count;
      free_pages = page_count;
      search_hint = 0;
    } in
    mark_reserved 0 page_size (mark_reserved bitmap_addr bytes fresh)

-- The loop of `pmm_alloc_page` at `i`, with `total_pages - i` rounds left.
unfoldable pub alloc_from : ℕ → ℕ → Pmm → ℕ × Pmm
alloc_from zero i s = (0, s)
alloc_from (suc left) i s =
    let page = u64 (s.search_hint + i) % s.total_pages in
    elim (test_bit s.bitmap page) [
      | false ↦ (u64 (page * page_size), record (take_page s page) { search_hint = u64 (page + 1) })
      | true ↦ alloc_from left (i + 1) s
    ]

unfoldable pub alloc_page : Pmm → ℕ × Pmm
unfolding alloc_from
alloc_page s = alloc_from s.total_pages 0 s

-- `for (allocated = first; allocated < first + n; allocated++) set_bit(allocated)`
unfoldable pub set_bits : ℕ → ℕ → (ℕ → ℕ) → ℕ → ℕ
set_bits zero first bitmap = bitmap
set_bits (suc n) first bitmap = set_bits n (first + 1) (set_bit bitmap first)

-- The loop of `pmm_alloc_pages` at `page`, with `total_pages - page` rounds left.
unfoldable pub alloc_run : ℕ → ℕ → ℕ → ℕ → ℕ → Pmm → ℕ × Pmm
alloc_run zero count page run_start run_length s = (0, s)
alloc_run (suc left) count page run_start run_length s = elim (test_bit s.bitmap page) [
  | true ↦ alloc_run left count (page + 1) run_start 0 s
  | false ↦
      let start = if run_length == 0 then page else run_start in
      elim (run_length + 1 == count) [
        | true ↦ (
          u64 (start * page_size),
          record s {
            bitmap = set_bits count start s.bitmap;
            free_pages = u64 (s.free_pages + 2 ^ 64 - count);
            search_hint = u64 (start + count);
          },
        )
        | false ↦ alloc_run left count (page + 1) start (run_length + 1) s
      ]
]

unfoldable pub alloc_pages : ℕ → Pmm → ℕ × Pmm
unfolding alloc_run
alloc_pages count s =
    if count == 0 || ltb s.total_pages count then (0, s) else alloc_run s.total_pages count 0 0 0 s

-- `if (test_bit(page)) { clear_bit(page); free_pages++; }`
unfoldable pub release_page : Pmm → ℕ → Pmm
release_page s page = if test_bit s.bitmap page then give_page s page else s

unfoldable pub free_page : ℕ → Pmm → Pmm
free_page phys_addr s =
    let page = phys_addr / page_size in
    if not (phys_addr % page_size == 0) || (page == 0) || leb s.total_pages page
    then s
    else release_page s page

-- The loop of `pmm_free_pages`, with `n` pages left from `page` on.
unfoldable pub release_pages : ℕ → ℕ → Pmm → Pmm
release_pages zero page s = s
release_pages (suc n) page s = release_pages n (page + 1) (release_page s page)

unfoldable pub free_pages_at : ℕ → ℕ → Pmm → Pmm
free_pages_at phys_addr count s =
    let start_page = phys_addr / page_size in
    if (count == 0) || not (phys_addr % page_size == 0) || (phys_addr == 0)
    then s
    else if leb s.total_pages start_page || ltb (s.total_pages - start_page) count
    then s
    else release_pages count start_page s

unfoldable pub get_free_page_count : Pmm → ℕ
get_free_page_count s = s.free_pages

unfoldable pub get_total_page_count : Pmm → ℕ
get_total_page_count s = s.total_pages
