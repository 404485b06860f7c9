-- ===== src/Descriptors/Segments.antt =====
-- What the processor reads from the entries that gdt.cpp packs.
use operatingsystem.Common.{ℕ, ◌+◌, ◌*◌, ◌/◌, ◌%◌, ◌^◌, ◌<◌, ◌≡◌, refl, arith}
use operatingsystem.Common.{bit_and, and-ones}
use operatingsystem.Common.{some, List, [], ◌∷◌, get_or, zero, suc, write}
use operatingsystem.Descriptors.{GdtEntry, Tables, set_gdt_entry, set_tss_entry, gdt_init}

abbrev pub base_of : GdtEntry → ℕ
base_of e = e.base_low + e.base_middle * 2 ^ 16 + e.base_high * 2 ^ 24

abbrev pub limit_of : GdtEntry → ℕ
limit_of e = e.limit_low + bit_and e.granularity 0x0f * 2 ^ 16

abbrev pub flags_of : GdtEntry → ℕ
flags_of e = bit_and e.granularity 0xf0

-- The base of the descriptor of a task state, which takes two slots.
abbrev pub wide_base_of : GdtEntry → GdtEntry → ℕ
wide_base_of lower upper = base_of lower + (upper.limit_low + upper.base_low * 2 ^ 16) * 2 ^ 32

base_parts :
    (base : ℕ)
    → bit_and base 0xffff
        + bit_and (base / 2 ^ 16) 0xff * 2 ^ 16
        + bit_and (base / 2 ^ 24) 0xff * 2 ^ 24
      ≡ base % 2 ^ 32
base_parts base =
    omega (arith, and-ones 16 base, and-ones 8 (base / 2 ^ 16), and-ones 8 (base / 2 ^ 24))

upper_parts : (u : ℕ) → bit_and u 0xffff + bit_and (u / 2 ^ 16) 0xffff * 2 ^ 16 ≡ u % 2 ^ 32
upper_parts u = omega (arith, and-ones 16 u, and-ones 16 (u / 2 ^ 16))

-- `set_tss_entry` with a 64-bit base and a 20-bit limit.
pub set_tss_entry_lem :
    (base limit : ℕ) (t : Tables)
    → base < 2 ^ 64
    → limit < 2 ^ 20
    → let t' = set_tss_entry base limit t in
      (wide_base_of (t'.gdt 5) (t'.gdt 6) ≡ base)
      × (limit_of (t'.gdt 5) ≡ limit)
      × ((t'.gdt 5).access ≡ 0x89)
      × ((i : ℕ) → i < 5 → t'.gdt i ≡ t.gdt i)
unfolding set_tss_entry write
set_tss_entry_lem base limit t small short = (
  omega (
    arith,
    base_parts base,
    upper_parts (bit_and (base / 2 ^ 32) 0xffff_ffff),
    and-ones 32 (base / 2 ^ 32),
  ),
  omega (
    arith,
    and-ones 4 (bit_and (limit / 2 ^ 16) 0x0f),
    and-ones 4 (limit / 2 ^ 16),
    and-ones 16 limit,
  ),
  refl,
  λ i h. ground arith,
)

abbrev pub access_bytes : List ℕ
access_bytes = 0 ∷ 0x9a ∷ 0x92 ∷ 0xf2 ∷ 0xfa ∷ []

abbrev pub flag_nibbles : List ℕ
flag_nibbles = 0 ∷ 0x20 ∷ 0 ∷ 0 ∷ 0x20 ∷ []

segments :
    (gdt_addr tss_addr : ℕ) (t : Tables) (i : ℕ)
    → i < 5
    → let e = (gdt_init gdt_addr tss_addr t).gdt i in
      (base_of e ≡ 0)
      × (limit_of e ≡ 0)
      × (e.access ≡ get_or access_bytes i 0)
      × (flags_of e ≡ get_or flag_nibbles i 0)
unfolding gdt_init set_tss_entry set_gdt_entry write
segments gdt_addr tss_addr t zero h = (refl, refl, refl, refl)
segments gdt_addr tss_addr t (suc zero) h = (refl, refl, refl, refl)
segments gdt_addr tss_addr t (suc (suc zero)) h = (refl, refl, refl, refl)
segments gdt_addr tss_addr t (suc (suc (suc zero))) h = (refl, refl, refl, refl)
segments gdt_addr tss_addr t (suc (suc (suc (suc zero)))) h = (refl, refl, refl, refl)
segments gdt_addr tss_addr t (suc (suc (suc (suc (suc i))))) h = absurd (omega arith)

gdtr_lem :
    (gdt_addr tss_addr : ℕ) (t : Tables)
    → (gdt_init gdt_addr tss_addr t).gdtr ≡ some (record { limit = 55; base = gdt_addr })
unfolding gdt_init set_tss_entry set_gdt_entry
gdtr_lem gdt_addr tss_addr t = refl

-- After `gdt_init`, for tables at 64-bit addresses, the processor has loaded the table of seven
-- slots and the selector of the task state; that selector's descriptor reads back with the address
-- of the task state, its last byte and the access byte of an available task state; and the five
-- segments before it are flat, with the access bytes and flags of no segment, kernel code, kernel
-- data, user data and user code.
pub gdt_init_lem :
    (gdt_addr tss_addr : ℕ) (t : Tables)
    → tss_addr < 2 ^ 64
    → let t' = gdt_init gdt_addr tss_addr t in
      (t'.gdtr ≡ some (record { limit = 55; base = gdt_addr }))
      × (t'.task_register ≡ 8 * 5)
      × (wide_base_of (t'.gdt 5) (t'.gdt 6) ≡ tss_addr)
      × (limit_of (t'.gdt 5) ≡ 103)
      × ((t'.gdt 5).access ≡ 0x89)
      × ((i : ℕ)
          → i < 5
          → (base_of (t'.gdt i) ≡ 0)
            × (limit_of (t'.gdt i) ≡ 0)
            × ((t'.gdt i).access ≡ get_or access_bytes i 0)
            × (flags_of (t'.gdt i) ≡ get_or flag_nibbles i 0))
unfolding gdt_init
gdt_init_lem gdt_addr tss_addr t small =
    let wide = set_tss_entry_lem tss_addr 103 _ small (omega arith) in
    (gdtr_lem gdt_addr tss_addr t, refl, wide.0, wide.1, wide.2, segments gdt_addr tss_addr t)
