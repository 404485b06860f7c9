-- ===== src/Pmm/Runs.antt =====
-- `pmm_alloc_pages`: the first run of free pages that is long enough, or none.
use operatingsystem.Common.{ℕ, zero, suc, ◌+◌, ◌-◌, ◌*◌, ◌^◌, ◌≤◌, ◌<◌, ◌≡◌, refl, ap, ◌∙◌, arith}
use operatingsystem.Common.{◌≢◌, ◌⊎◌, inl, inr, true, false, ◌&&◌, ◌==◌, if◌then◌else◌}
use operatingsystem.Common.{leb, ltb, u64, Bool-cases, ==_iff, ==-eq-false}
use native.Mathlib.Decide.{ℕ_discrete, dec_lt}
use operatingsystem.Pmm.{Pmm, page_size, set_bit, test_bit, set_bits, alloc_run, alloc_pages}
use operatingsystem.Pmm.Bitmap.{test_bit-set_bit}
use operatingsystem.Pmm.Valid.{count_free, IsValid, count_free-le, count_free-set_bit}
use operatingsystem.Pmm.Alloc.{Granted}

pub test_bit-set_bits :
    (n first : ℕ) (m : ℕ → ℕ) (q : ℕ)
    → test_bit (set_bits n first m) q
      ≡ (if leb first q && ltb q (first + n) then true else test_bit m q)
unfolding set_bits
test_bit-set_bits zero first m q = ground arith
test_bit-set_bits (suc n) first m q =
    ground (arith, test_bit-set_bits n (first + 1) (set_bit m first) q, test_bit-set_bit m first q)

count_free-set_bits :
    (n first : ℕ) (m : ℕ → ℕ) (total : ℕ)
    → first + n ≤ total
    → ((q : ℕ) → first ≤ q → q < first + n → test_bit m q ≡ false)
    → count_free (set_bits n first m) total + n ≡ count_free m total
unfolding set_bits
count_free-set_bits zero first m total h f = omega arith
count_free-set_bits (suc n) first m total h f = omega (
  arith,
  count_free-set_bit m first total (omega arith) (f first (omega arith) (omega arith)),
  count_free-set_bits n (first + 1) (set_bit m first) total (omega arith)
      (λ q p l. ground (arith, test_bit-set_bit m first q, f q)),
)

-- A page of the `count` pages from `first` on is taken.
abbrev pub IsBlocked : Pmm → ℕ → ℕ → Type 0
IsBlocked s count first = (q : ℕ) × (first ≤ q) × (q < first + count) × (test_bit s.bitmap q ≡ true)

-- The state that a grant of `count` pages from `first` on leaves.
abbrev pub granted : Pmm → ℕ → ℕ → ℕ × Pmm
granted s count first = (
  u64 (first * page_size),
  record s {
    bitmap = set_bits count first s.bitmap;
    free_pages = u64 (s.free_pages + 2 ^ 64 - count);
    search_hint = u64 (first + count);
  },
)

granted-Granted :
    (s : Pmm) (count first : ℕ)
    → IsValid s
    → 0 < count
    → first + count ≤ s.total_pages
    → ((q : ℕ) → first ≤ q → q < first + count → test_bit s.bitmap q ≡ false)
    → Granted s first count (granted s count first)
granted-Granted s count first v pos h f =
    let counted = count_free-set_bits count first s.bitmap s.total_pages h f in
    let below = count_free-le s.bitmap s.total_pages in
    record {
      nonzero = ground (arith, v.zero_taken, f 0);
      within = h;
      address = ground (arith, v.is_counted.small);
      was_free = f;
      after = test_bit-set_bits count first s.bitmap;
      fewer = omega (arith, v.is_counted);
      same_total = refl;
      valid = record {
        is_counted = omega (arith, v.is_counted);
        zero_taken = ground (arith, test_bit-set_bits count first s.bitmap 0, v.zero_taken);
      };
    }

-- What the loop knows when it comes to `page`.
record Scan (s : Pmm) (count page run_start run_length : ℕ) : Type 0 where
  short : run_length < count
  fits : run_length ≤ page
  start : run_length ≢ 0 → run_start + run_length ≡ page
  free : (q : ℕ) → page ≤ q + run_length → q < page → test_bit s.bitmap q ≡ false
  maximal : (page ≡ run_length) ⊎ (test_bit s.bitmap (page - run_length - 1) ≡ true)
  blocked : (first : ℕ) → first + count ≤ page → IsBlocked s count first

-- One round on a taken page, and one on a free page that does not complete the run.
Scan-taken :
    {s : Pmm} {count page run_start run_length : ℕ}
    → Scan s count page run_start run_length
    → test_bit s.bitmap page ≡ true
    → Scan s count (page + 1) run_start 0
Scan-taken {s} {count} {page} i taken = record {
  short = omega (arith, i.short);
  fits = omega arith;
  start = λ h. absurd (h refl);
  free = λ q p l. absurd (omega arith);
  maximal = inr (ap (test_bit s.bitmap) (omega arith) ∙ taken);
  blocked = λ first h. elim (ℕ_discrete (first + count) (page + 1)) [
    | yes e ↦ (page, omega (arith, i.short), omega arith, taken)
    | no ne ↦ i.blocked first (omega arith)
  ];
}

abbrev next_start : ℕ → ℕ → ℕ → ℕ
next_start page run_start run_length = if run_length == 0 then page else run_start

next_start_lem :
    {s : Pmm} {count page run_start run_length : ℕ}
    → Scan s count page run_start run_length
    → next_start page run_start run_length + run_length ≡ page
next_start_lem i = ground (arith, i.start)

Scan-free :
    {s : Pmm} {count page run_start run_length : ℕ}
    → Scan s count page run_start run_length
    → test_bit s.bitmap page ≡ false
    → run_length + 1 ≢ count
    → Scan s count (page + 1) (next_start page run_start run_length) (run_length + 1)
Scan-free {s} {count} {page} {run_start} {run_length} i free short = record {
  short = omega (arith, i.short);
  fits = omega (arith, i.fits);
  start = λ h. omega (arith, next_start_lem i);
  free = λ q p l. elim (ℕ_discrete page q) [
    | yes e ↦ rw (← e) free
    | no ne ↦ i.free q (omega arith) (omega arith)
  ];
  maximal = elim i.maximal [
    | inl e ↦ inl (omega arith)
    | inr taken ↦ inr (ap (test_bit s.bitmap) (omega arith) ∙ taken)
  ];
  blocked = λ first h. elim (ℕ_discrete (first + count) (page + 1)) [
    | yes e ↦ elim i.maximal [
      | inl all ↦ absurd (omega (arith, i.short))
      | inr taken ↦ (page - run_length - 1, omega (arith, i.short), omega (arith, i.short), taken)
    ]
    | no ne ↦ i.blocked first (omega arith)
  ];
}

-- One round of the loop.
alloc_run-suc :
    (left count page run_start run_length : ℕ) (s : Pmm)
    → alloc_run (suc left) count page run_start run_length s ≡ (
        if test_bit s.bitmap page
        then alloc_run left count (page + 1) run_start 0 s
        else (if run_length + 1 == count
            then granted s count (next_start page run_start run_length)
            else alloc_run left count
                (page + 1)
                (next_start page run_start run_length)
                (run_length + 1)
                s))
unfolding alloc_run
alloc_run-suc left count page run_start run_length s = ground arith

-- A grant of the first run that is long enough, or nothing changes and there is none.
abbrev FirstFit : Pmm → ℕ → ℕ × Pmm → Type 0
FirstFit s count r =
    ((first : ℕ) × Granted s first count r
      × ((other : ℕ) → other < first → IsBlocked s count other))
    ⊎ ((r ≡ (0, s)) × ((first : ℕ) → first + count ≤ s.total_pages → IsBlocked s count first))

Scan-granted :
    {s : Pmm} {count page run_start run_length : ℕ}
    → IsValid s
    → Scan s count page run_start run_length
    → page < s.total_pages
    → test_bit s.bitmap page ≡ false
    → run_length + 1 ≡ count
    → FirstFit s count (granted s count (next_start page run_start run_length))
Scan-granted {s} {count} {page} {run_start} {run_length} v i h free full =
    let start = next_start page run_start run_length in
    let ends : start + count ≡ page + 1 = omega (arith, next_start_lem i) in
    inl (
      start,
      granted-Granted s count start v (omega arith) (omega arith) (λ q p l.
          elim (ℕ_discrete page q) [
            | yes e ↦ rw (← e) free
            | no ne ↦ i.free q (omega arith) (omega arith)
          ]),
      λ other l. i.blocked other (omega arith),
    )

alloc_run-FirstFit :
    (left count page run_start run_length : ℕ) (s : Pmm)
    → IsValid s
    → page + left ≡ s.total_pages
    → Scan s count page run_start run_length
    → FirstFit s count (alloc_run left count page run_start run_length s)
alloc_run-FirstFit zero count page run_start run_length s v e i =
    inr (unfold alloc_run in refl, λ first h. i.blocked first (omega arith))
alloc_run-FirstFit (suc left) count page run_start run_length s v e i =
    rw (alloc_run-suc left count page run_start run_length s)
      (elim (Bool-cases (test_bit s.bitmap page)) [
        | inl taken ↦ rw taken (
            alloc_run-FirstFit left count (page + 1) run_start 0 s v (omega arith)
              (Scan-taken i taken))
        | inr free ↦ rw free (elim (ℕ_discrete (run_length + 1) count) [
          | yes full ↦ rw ((==_iff _ _).1 full) (Scan-granted v i (omega arith) free full)
          | no short ↦ rw (==-eq-false short) (
              alloc_run-FirstFit left count (page + 1) (next_start page run_start run_length)
                (run_length + 1) s v (omega arith) (Scan-free i free short))
        ])
      ])

-- `pmm_alloc_pages` on a valid allocator and a count that is not 0 either hands out that many
-- free pages in a row, not page 0 among them, taking those alone, lowering the count of free
-- pages by as many and leaving a valid allocator, and every earlier run of that length has a
-- taken page; or it returns 0 and changes nothing, and every run of that length has a taken page.
pub alloc_pages_lem :
    (s : Pmm) (count : ℕ)
    → IsValid s
    → 0 < count
    → ((first : ℕ) × Granted s first count (alloc_pages count s)
        × ((other : ℕ) → other < first → IsBlocked s count other))
      ⊎ ((alloc_pages count s ≡ (0, s))
          × ((first : ℕ) → first + count ≤ s.total_pages → IsBlocked s count first))
unfolding alloc_pages
alloc_pages_lem s count v pos = elim (dec_lt s.total_pages count) [
  | yes big ↦ inr (ground arith, λ first h. absurd (omega arith))
  | no fits ↦ rw (enters fits) (
      alloc_run-FirstFit s.total_pages count 0 0 0 s v (omega arith) (record {
        short = pos;
        fits = omega arith;
        start = λ h. absurd (h refl);
        free = λ q p l. absurd (omega arith);
        maximal = inl refl;
        blocked = λ first h. absurd (omega arith);
      }))
]
  where
    enters : ¬ (s.total_pages < count) → alloc_pages count s ≡ alloc_run s.total_pages count 0 0 0 s
    enters fits = ground arith
