-- ===== src/Pmm/Tests.antt =====
-- Runs of the allocator on a machine of 24 pages, its bitmap in page 2.
use operatingsystem.Common.{ℕ, ◌+◌, ◌*◌, ◌/◌, ◌≤◌, ◌<◌, ◌≡◌, ◌≢◌, refl, arith}
use operatingsystem.Common.{true, ◌||◌, ◌==◌, ◌⊎◌, write}
use operatingsystem.Pmm.{Pmm, page_size, test_bit, set_bit, take_page}
use operatingsystem.Pmm.{mark_reserved, alloc_page, alloc_pages, set_bits}
use operatingsystem.Pmm.{free_pages_at, init}
use operatingsystem.Pmm.{get_free_page_count, get_total_page_count}
use operatingsystem.Pmm.Valid.{IsValid}
use operatingsystem.Pmm.Alloc.{Granted, alloc_page_lem}
use operatingsystem.Pmm.Runs.{IsBlocked, alloc_pages_lem}
use operatingsystem.Pmm.Reserve.{Reserved, overlaps, mark_reserved_lem, init_lem}
use operatingsystem.Pmm.Free.{Released, frees_pages, free_pages_at_lem}
use operatingsystem.Pmm.Free.{free_pages_at-alloc_pages}
use operatingsystem.Pmm.Steps.{Run, here, next, alloc, alloc_many, init-Run, alloc-Run}

abbrev garbage : ℕ → ℕ
garbage i = 0xab

abbrev machine : Pmm
machine = init garbage 0x2000 24

abbrev one_taken : Pmm
one_taken = (alloc_page machine).1

machine-counts : (get_free_page_count machine ≡ 22) × (get_total_page_count machine ≡ 24)
unfolding init get_free_page_count get_total_page_count take_page test_bit set_bit write
machine-counts = (refl, refl)

first_pages : ((alloc_page machine).0 ≡ 0x1000) × ((alloc_page one_taken).0 ≡ 0x3000)
unfolding init alloc_page take_page test_bit set_bit write
first_pages = (refl, refl)

runs :
    ((alloc_pages 21 machine).0 ≡ 0x3000)
    × ((alloc_pages 22 machine).0 ≡ 0)
    × ((alloc_pages 0 machine).0 ≡ 0)
unfolding init alloc_pages set_bits take_page test_bit set_bit write
runs = (refl, refl, refl)

machine-IsValid : IsValid machine
machine-IsValid = (init_lem garbage 0x2000 24 (omega arith) (omega arith) (omega arith)).0

init_lem_example :
    IsValid machine
    × (machine.total_pages ≡ 24)
    × ((q : ℕ)
        → q < 24
        → test_bit machine.bitmap q ≡ ((q == 0) || overlaps machine 0x2000 ((24 + 7) / 8) q))
init_lem_example = init_lem garbage 0x2000 24 (omega arith) (omega arith) (omega arith)

alloc_page_lem_example :
    ((page : ℕ) × Granted machine page 1 (alloc_page machine))
    ⊎ ((alloc_page machine ≡ (0, machine))
        × ((p : ℕ) → p < machine.total_pages → test_bit machine.bitmap p ≡ true))
alloc_page_lem_example = alloc_page_lem machine machine-IsValid

alloc_pages_lem_example :
    ((first : ℕ) × Granted machine first 4 (alloc_pages 4 machine)
      × ((other : ℕ) → other < first → IsBlocked machine 4 other))
    ⊎ ((alloc_pages 4 machine ≡ (0, machine))
        × ((first : ℕ) → first + 4 ≤ machine.total_pages → IsBlocked machine 4 first))
alloc_pages_lem_example = alloc_pages_lem machine 4 machine-IsValid (omega arith)

free_pages_at_lem_example :
    Released machine (frees_pages machine 0x1000 3) (free_pages_at 0x1000 3 machine)
free_pages_at_lem_example = free_pages_at_lem 0x1000 3 machine machine-IsValid

four_pages : (alloc_pages 4 machine).0 ≡ 0x3000
unfolding init alloc_pages set_bits take_page test_bit set_bit write
four_pages = refl

free_pages_at-alloc_pages_example :
    let t = free_pages_at (alloc_pages 4 machine).0 4 (alloc_pages 4 machine).1 in
    ((q : ℕ) → test_bit t.bitmap q ≡ test_bit machine.bitmap q)
    × (t.free_pages ≡ machine.free_pages)
free_pages_at-alloc_pages_example =
    free_pages_at-alloc_pages machine 4 machine-IsValid (omega (arith, four_pages))

mark_reserved_lem_example :
    Reserved machine (overlaps machine 0x4800 0x1000) (mark_reserved 0x4800 0x1000 machine)
mark_reserved_lem_example =
    mark_reserved_lem 0x4800 0x1000 machine machine-IsValid.is_counted (omega arith)

abbrev two_calls : Run 2 machine (alloc_pages 4 one_taken).1
two_calls = next (next here (alloc machine)) (alloc_many one_taken 4)

init-Run_example :
    IsValid (alloc_pages 4 one_taken).1
    × ((alloc_pages 4 one_taken).1.total_pages ≡ 24)
    × ((i : ℕ) → (24 + 7) / 8 ≤ i → (alloc_pages 4 one_taken).1.bitmap i ≡ garbage i)
init-Run_example = init-Run garbage 0x2000 24 2 (omega arith) (omega arith) (omega arith) two_calls

bitmap_page_taken : test_bit machine.bitmap 2 ≡ true
unfolding init take_page test_bit set_bit write
bitmap_page_taken = refl

alloc-Run_example :
    let t = (alloc_pages 4 one_taken).1 in
    ((alloc_page t).0 ≢ 2 * page_size)
    × ((count : ℕ)
        → let a = (alloc_pages count t).0 in
          (a ≡ 0) ⊎ (2 * page_size + page_size ≤ a) ⊎ (a + count * page_size ≤ 2 * page_size))
alloc-Run_example = alloc-Run machine-IsValid (omega arith) bitmap_page_taken two_calls
