-- ===== src/Vmm/Entry.antt =====
-- A page table entry as a word: its flags, and the address in its bits 12 to 51.
use operatingsystem.Common.{
  ℕ, zero, suc, ◌+◌, ◌-◌, ◌*◌, ◌/◌, ◌%◌, ◌^◌, ◌<◌, ◌≡◌, refl, sym, ap, ap₂, ◌∙◌, max, arith,
}
use operatingsystem.Common.{
  bit_and, bit_or, bit, bit-bit_or, bit-bit_and, bit-le-one, bit_and-pow-eq_zero, and_digits,
  or_digits, and-ones, and_assoc, and-or, or-zero, and-zero,
}
use operatingsystem.Common.{true, false, not, ◌==◌}
use native.Mathlib.Nat.{pow-suc, mul_assoc, div-div-eq-div-mul}
use operatingsystem.Vmm.{is_present, is_huge, address_of, table_entry}

twice-pow : (b k : ℕ) → b * 2 ^ suc k ≡ 2 * (b * 2 ^ k)
twice-pow b k = omega (arith, ap (λ (p : ℕ). b * p) (pow-suc 2 k), mul_assoc b (2 ^ k) 2)

-- `a & (b << k)` is `((a >> k) & b) << k`.
and-shift : (k a b : ℕ) → bit_and a (b * 2 ^ k) ≡ bit_and (a / 2 ^ k) b * 2 ^ k
and-shift zero a b = omega (arith, ap (bit_and a) once, ap (λ x. bit_and x b) same)
  where
    once : b * 1 ≡ b
    once = omega arith

    same : a / 1 ≡ a
    same = omega arith
and-shift (suc k) a b = omega (
  arith,
  ap (bit_and a) (twice-pow b k),
  and_digits a (2 * (b * 2 ^ k)),
  ap (bit_and (a / 2)) half,
  and-shift k (a / 2) b,
  twice-pow (bit_and (a / 2 ^ suc k) b) k,
  ap (λ x. bit_and x b * 2 ^ k) quotient,
)
  where
    half : 2 * (b * 2 ^ k) / 2 ≡ b * 2 ^ k
    half = omega arith

    quotient : a / 2 / 2 ^ k ≡ a / 2 ^ suc k
    quotient = div-div-eq-div-mul a 2 (2 ^ k) ∙ ap (λ (t : ℕ). a / t) (omega (arith, pow-suc 2 k))

-- `(a << k) | b` is a sum, if `b` is below `1 << k`.
pub or-shift : (k a b : ℕ) → b < 2 ^ k → bit_or (a * 2 ^ k) b ≡ a * 2 ^ k + b
or-shift zero a b h = ap (bit_or (a * 1)) none ∙ or-zero (a * 1) ∙ omega arith
  where
    none : b ≡ 0
    none = omega arith
or-shift (suc k) a b h = omega (
  arith,
  ap (λ x. bit_or x b) (twice-pow a k),
  twice-pow a k,
  or_digits (2 * (a * 2 ^ k)) b,
  ap (λ x. bit_or x (b / 2)) half,
  or-shift k a (b / 2) (omega (arith, pow-suc 2 k)),
)
  where
    half : 2 * (a * 2 ^ k) / 2 ≡ a * 2 ^ k
    half = omega arith

pub address_of_lem : (e : ℕ) → address_of e ≡ e / 2 ^ 12 % 2 ^ 40 * 2 ^ 12
address_of_lem e = and-shift 12 e (2 ^ 40 - 1) ∙ ap (λ n. n * 2 ^ 12) (and-ones 40 (e / 2 ^ 12))

pub is_present_lem : (e : ℕ) → is_present e ≡ not (bit 0 e == 0)
is_present_lem e = ap not (bit_and-pow-eq_zero e 0)

pub is_huge_lem : (e : ℕ) → is_huge e ≡ not (bit 7 e == 0)
is_huge_lem e = ap not (bit_and-pow-eq_zero e 7)

address_of-or : (a b : ℕ) → address_of b ≡ 0 → address_of (bit_or a b) ≡ address_of a
address_of-or a b h = and-or a b 0x000f_ffff_ffff_f000 ∙ rw (h, or-zero (address_of a)) refl

address_of-and : (a b : ℕ) → bit_and b 0x000f_ffff_ffff_f000 ≡ 0 → address_of (bit_and a b) ≡ 0
address_of-and a b h = and_assoc a b 0x000f_ffff_ffff_f000 ∙ rw (h, and-zero a) refl

-- An address in bits 12 to 51 is its own address part.
pub address_of-page : (page : ℕ) → page < 2 ^ 40 → address_of (page * 4096) ≡ page * 4096
address_of-page page h = omega (arith, address_of_lem (page * 4096))

pub address_of-lt : (e : ℕ) → address_of e < 2 ^ 52
address_of-lt e = omega (arith, address_of_lem e)

-- What `get_or_create_table` stores for a new table: present, no huge page, and the table's
-- address.
pub table_entry_lem :
    (page flags : ℕ)
    → page < 2 ^ 40
    → (is_present (table_entry (page * 4096) flags) ≡ true)
      × (is_huge (table_entry (page * 4096) flags) ≡ false)
      × (address_of (table_entry (page * 4096) flags) ≡ page * 4096)
unfolding bit
table_entry_lem page flags h = (
  is_present_lem e ∙ ground (arith, join 0),
  is_huge_lem e ∙ ground (arith, join 7, bit-bit_and 7 flags 4),
  address_of-or _ (bit_and flags 4) (address_of-and flags 4 refl)
      ∙ address_of-or _ 2 refl
      ∙ address_of-or _ 1 refl
      ∙ ap address_of (address_of-page page h)
      ∙ address_of-page page h,
)
  where
    e : ℕ
    e = table_entry (page * 4096) flags

    join :
        (j : ℕ)
        → bit j e
          ≡ max (max (max (bit j (page * 4096)) (bit j 1)) (bit j 2)) (bit j (bit_and flags 4))
    join j = omega (
      arith,
      ap (bit j) (address_of-page page h),
      bit-bit_or j (address_of (page * 4096)) 1,
      bit-bit_or j (bit_or (address_of (page * 4096)) 1) 2,
      bit-bit_or j (bit_or (bit_or (address_of (page * 4096)) 1) 2) (bit_and flags 4),
    )

-- Setting the user flag changes nothing else that is read.
pub user_entry_lem :
    (e : ℕ)
    → (is_present (bit_or e 4) ≡ is_present e)
      × (is_huge (bit_or e 4) ≡ is_huge e)
      × (address_of (bit_or e 4) ≡ address_of e)
unfolding bit
user_entry_lem e = (
  is_present_lem (bit_or e 4)
      ∙ ap (λ b. not (b == 0)) (omega (arith, bit-bit_or 0 e 4))
      ∙ sym (is_present_lem e),
  is_huge_lem (bit_or e 4)
      ∙ ap (λ b. not (b == 0)) (omega (arith, bit-bit_or 7 e 4))
      ∙ sym (is_huge_lem e),
  address_of-or e 4 refl,
)

-- The entry of a page: with no flag in the address bits, it is present and holds the page's address.
pub page_entry_lem :
    (phys_addr flags : ℕ)
    → address_of flags ≡ 0
    → (is_present (bit_or (bit_or (address_of phys_addr) flags) 1) ≡ true)
      × (address_of (bit_or (bit_or (address_of phys_addr) flags) 1) ≡ address_of phys_addr)
unfolding bit
page_entry_lem phys_addr flags h = (
  is_present_lem _
      ∙ ground (
        arith,
        bit-bit_or 0 (bit_or (address_of phys_addr) flags) 1,
        bit-le-one 0 (bit_or (address_of phys_addr) flags),
      ),
  address_of-or _ 1 refl
      ∙ address_of-or _ flags h
      ∙ omega (arith, address_of_lem phys_addr, address_of_lem (address_of phys_addr)),
)

-- The byte address in a page.
pub in_page :
    (e offset : ℕ) → bit_or (address_of e) (bit_and offset 0xfff) ≡ address_of e + offset % 4096
in_page e offset =
    ap₂ bit_or (address_of_lem e) (and-ones 12 offset)
    ∙ or-shift 12 (e / 2 ^ 12 % 2 ^ 40) (offset % 4096) (omega arith)
    ∙ omega (arith, address_of_lem e)
