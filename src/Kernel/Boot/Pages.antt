-- ===== src/Kernel/Boot/Pages.antt =====
-- The pages after `pmm_init` and `pmm_mark_reserved`, as `kernel_main` calls them.
use operatingsystem.Common.{ℕ, ◌≤◌, ◌<◌, ◌≡◌, ap, ◌∙◌, arith}
use operatingsystem.Common.{Bool, ◌&&◌, ◌||◌, leb, ltb}
use operatingsystem.Pmm.{Pmm, test_bit, mark_reserved}
use operatingsystem.Pmm
use operatingsystem.Pmm.Valid.{IsValid, count_free, count_free_run}
use operatingsystem.Pmm.Reserve.{init_lem, mark_reserved_lem}
use operatingsystem.Kernel.Start.{Devices, System, bitmap_addr, set_up_memory}

-- Page `q` is below page `n`, or between 1 MiB and 3 MiB.
abbrev pub is_taken : ℕ → ℕ → Bool
is_taken n q = ltb q n || (leb 256 q && ltb q 768)

-- The pages that the kernel assumes, with those below page `n` and those from 1 MiB to 3 MiB taken.
pub record TakenBelow (n : ℕ) (s : Pmm) : Type 0 where
  pub valid : IsValid s
  pub total : s.total_pages ≡ 32768
  pub bits : (q : ℕ) → q < 32768 → test_bit s.bitmap q ≡ is_taken n q

-- After `pmm_init` and `pmm_mark_reserved` as `kernel_main` calls them, whatever the memory of the
-- bitmap held, the allocator is valid and has 32768 pages, of which exactly page 0 and those from
-- 1 MiB to 3 MiB are taken.
pub set_up_memory-TakenBelow :
    (devices : Devices) (s : System) → TakenBelow 1 (set_up_memory devices s).pmm
unfolding set_up_memory
set_up_memory-TakenBelow devices s =
    let first =
      init_lem devices.bitmap_before bitmap_addr 32768 (omega arith) (omega arith) (omega arith) in
    let second =
      mark_reserved_lem 0x100000 0x200000 (Pmm.init devices.bitmap_before bitmap_addr 32768)
        first.0.is_counted (omega arith) in
    record {
      valid = record {
        is_counted = second.counted;
        zero_taken = ground (arith, second.after 0, first.0.zero_taken);
      };
      total = second.same_total ∙ first.1;
      bits = λ q h. ground (arith, second.after q, first.1, first.2 q h);
    }

-- Pages enough are left.
pub TakenBelow-free : {n : ℕ} {s : Pmm} → TakenBelow n s → n ≤ 256 → 32000 ≤ s.free_pages
TakenBelow-free {n} {s} t h = omega (
  arith,
  t.valid.is_counted,
  ap (count_free s.bitmap) t.total,
  count_free_run s.bitmap 768 32000 (λ q p l. t.bits q l ∙ ground arith),
)
