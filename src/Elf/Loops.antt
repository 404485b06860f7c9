-- ===== src/Elf/Loops.antt =====
-- The loops of the loader end, as the fuel is enough, and what a success has done.
use operatingsystem.Common.{
  ℕ, zero, suc, ◌+◌, ◌-◌, ◌*◌, ◌/◌, ◌%◌, ◌^◌, ◌≤◌, ◌<◌, ◌≡◌, refl, sym, ap, ◌∙◌, subst, arith,
}
use operatingsystem.Common.{Option, none, some, bit_and, and-ones, and_digits, u64}
use operatingsystem.Common.{
  Bool, true, false, ◌==◌, ltb, leb, if◌then◌else◌, Bool-cases, inl, inr, ◌⊎◌, dec_lt,
}
use native.Mathlib.Nat.{pow-suc, div-div-eq-div-mul}
use operatingsystem.Pmm.{alloc_page}
use operatingsystem.Vmm.{Vmm, translate}
use operatingsystem.Elf.{
  copy_segment, load_program, load_programs, map_segment, read_program, read_header, valid_program,
  valid_user_range, align_down, align_up, segment_start, segment_end, segment_flags,
  Elf64ProgramHeader, field, byte_at,
}
use operatingsystem.Elf.Segments.{
  Mapped, mapped_all, mapped_page, Copied, copied_all, copied_piece, Fits, Handled, Loads,
  loads_all, loads_one,
}

-- The result is there, and is a failure or a state as `P` says.
abbrev pub Ends : (Vmm → Type 0) → Option (Bool × Vmm) → Type 0
Ends P r = (x : Bool × Vmm) × (r ≡ some x) × ((x.0 ≡ false) ⊎ P x.1)

map-Ends :
    {P Q : Vmm → Type 0} {r : Option (Bool × Vmm)} → ((w : Vmm) → P w → Q w) → Ends P r → Ends Q r
map-Ends f (x, e, inl no_success) = (x, e, inl no_success)
map-Ends f (x, e, inr p) = (x, e, inr (f x.1 p))

then-Ends :
    (P Q : Vmm → Type 0) (r : Option (Bool × Vmm)) (k : Vmm → Option (Bool × Vmm))
    → Ends P r
    → ((w : Vmm) → P w → Ends Q (k w))
    → Ends Q (elim r [ none ↦ none | some (false, w) ↦ some (false, w) | some (true, w) ↦ k w ])
then-Ends P Q none k (x, e, p) next = cc
then-Ends P Q (some (false, w)) k e next = ((false, w), refl, inl refl)
then-Ends P Q (some (true, w)) k (x, e, inl no_success) next = cc
then-Ends P Q (some (true, w)) k (x, e, inr p) next =
    let same : x.1 ≡ w = cc in next w (subst P same p)

and-double : (v c : ℕ) → bit_and v (2 * c) ≡ 2 * bit_and (v / 2) c
and-double v c =
    let half : 2 * c / 2 ≡ c = omega arith in
    omega (arith, and_digits v (2 * c), ap (bit_and (v / 2)) half)

and-shift : (k v c : ℕ) → bit_and v (2 ^ k * c) ≡ 2 ^ k * bit_and (v / 2 ^ k) c
and-shift zero v c =
    let one : 1 * c ≡ c = omega arith in
    let whole : v / 1 ≡ v = omega arith in
    ap (bit_and v) one ∙ ap (λ t. bit_and t c) (sym whole) ∙ omega arith
and-shift (suc k) v c =
    let twice : 2 ^ suc k * c ≡ 2 * (2 ^ k * c) = grind (arith, pow-suc 2 k) in
    let double : 2 * 2 ^ k ≡ 2 ^ suc k = omega (arith, pow-suc 2 k) in
    let places : v / 2 / 2 ^ k ≡ v / 2 ^ suc k =
      div-div-eq-div-mul v 2 (2 ^ k) ∙ ap (λ t. v / t) double in
    ap (bit_and v) twice
    ∙ and-double v (2 ^ k * c)
    ∙ ap (λ t. 2 * t) (and-shift k (v / 2) c ∙ ap (λ t. 2 ^ k * bit_and t c) places)
    ∙ regroup (2 ^ k) (bit_and (v / 2 ^ suc k) c)
    ∙ ap (λ t. t * bit_and (v / 2 ^ suc k) c) double
  where
    regroup : (a b : ℕ) → 2 * (a * b) ≡ 2 * a * b
    regroup a b = grind arith

-- Clearing the twelve lowest bits.
mask_lem : (v : ℕ) → bit_and v (2 ^ 64 - 4096) ≡ v / 4096 % 2 ^ 52 * 4096
mask_lem v = and-shift 12 v (2 ^ 52 - 1) ∙ ap (λ t. 4096 * t) (and-ones 52 (v / 4096)) ∙ omega arith

align_down_lem : (value : ℕ) → value < 2 ^ 64 → align_down value ≡ value / 4096 * 4096
align_down_lem value h = omega (arith, mask_lem value)

align_up_lem : (value : ℕ) → value + 4095 < 2 ^ 64 → align_up value ≡ (value + 4095) / 4096 * 4096
align_up_lem value h = omega (arith, mask_lem (u64 (value + 4096 - 1)))

map_segment-Ends :
    (fuel root address end flags : ℕ) (v : Vmm)
    → end ≤ address + fuel
    → end ≤ 2 ^ 48
    → Ends (Mapped root end flags address v) (map_segment fuel root address end flags v)
unfolding map_segment
map_segment-Ends zero root a end flags v h small =
    let stop : ltb a end ≡ false = ground arith in
    rw stop ((true, v), refl, inr (mapped_all a v (omega arith)))
map_segment-Ends (suc fuel) root a end flags v h small = elim (dec_lt a end) [
  | no past ↦
      let stop : ltb a end ≡ false = ground arith in
      rw stop ((true, v), refl, inr (mapped_all a v (omega arith)))
  | yes more ↦
      let goes_on : ltb a end ≡ true = ground arith in
      let next : u64 (a + 4096) ≡ a + 4096 = omega arith in
      rw (goes_on, next)
        (elim (Bool-cases ((alloc_page v.pmm).0 == 0)) [
          | inl spent ↦ rw spent (_, refl, inl refl)
          | inr found ↦ rw found (
              map-Ends
                (λ w. mapped_page a (alloc_page v.pmm).0 v w more refl (λ z. ground (arith, found)))
                (map_segment-Ends fuel root (a + 4096) end flags _ (omega arith) small))
        ])
]

-- What a round copies.
abbrev chunk : ℕ → ℕ → ℕ
chunk bytes_remaining destination =
    let page_remaining = 4096 - bit_and destination 4095 in
    if ltb bytes_remaining page_remaining then bytes_remaining else page_remaining

chunk_lem :
    (n destination : ℕ)
    → 0 < n
    → (0 < chunk n destination)
      × (chunk n destination ≤ n)
      × (destination % 4096 + chunk n destination ≤ 4096)
chunk_lem n destination h = ground (arith, and-ones 12 destination)

copy_segment-Ends :
    (fuel root n destination source : ℕ) (v : Vmm)
    → n ≤ fuel
    → Ends (Copied root n destination source v) (copy_segment fuel root n destination source v)
unfolding copy_segment
copy_segment-Ends zero root zero d s v h = ((true, v), refl, inr (copied_all d s v))
copy_segment-Ends zero root (suc n) d s v h = absurd (omega arith)
copy_segment-Ends (suc fuel) root zero d s v h = ((true, v), refl, inr (copied_all d s v))
copy_segment-Ends (suc fuel) root (suc n) d s v h =
    let more : (suc n == 0) ≡ false = ground arith in
    elim (Bool-cases (translate root d v == 0)) [
      | inl unmapped ↦ rw (more, unmapped) ((false, v), refl, inl refl)
      | inr found ↦
          let c = chunk_lem (suc n) d (omega arith) in
          rw (more, found)
            (map-Ends
              (λ w.
                copied_piece (suc n) (chunk (suc n) d) (translate root d v) d s v w c.0 c.1 c.2 refl
                  (λ z. ground (arith, found)))
              (copy_segment-Ends fuel root (suc n - chunk (suc n) d) _ _ _ (omega (arith, c))))
    ]

valid_program-Fits :
    (program : Elf64ProgramHeader) (size : ℕ)
    → program.virtual_address < 2 ^ 64
    → valid_program program size ≡ true
    → Fits program size
unfolding valid_user_range
valid_program-Fits program size small e = record {
  room = ground (arith, e);
  in_file = ground (arith, e);
  low = ground (arith, e);
  high = ground (arith, e);
}

address_small : (memory : ℕ → ℕ) (a : ℕ) → (read_program memory a).virtual_address < 2 ^ 64
unfolding read_program
address_small memory a = unfold field byte_at in omega arith

-- A segment that fits ends below 2^48.
segment_end_lem :
    (program : Elf64ProgramHeader) (size : ℕ)
    → Fits program size
    → segment_end program ≡ (program.virtual_address + program.memory_size + 4095) / 4096 * 4096
segment_end_lem program size f =
    let sum : u64 (program.virtual_address + program.memory_size)
        ≡ program.virtual_address + program.memory_size =
      omega (arith, f.high) in
    ap align_up sum
    ∙ align_up_lem (program.virtual_address + program.memory_size) (omega (arith, f.high))

load_program-Ends :
    (root contents size at : ℕ) (v : Vmm)
    → Ends (Handled root contents size at v) (load_program root contents size at v)
unfolding load_program
load_program-Ends root contents size at v =
    let program = read_program v.memory at in
    elim (Bool-cases (program.type == 1)) [
      | inr other ↦ rw other ((true, v), refl, inr (inl (λ e. ground (arith, other), refl)))
      | inl load ↦ elim (Bool-cases (valid_program program size)) [
        | inr bad ↦ rw (load, bad) ((false, v), refl, inl refl)
        | inl good ↦
            let f = valid_program-Fits program size (address_small v.memory at) good in
            let first = align_down_lem program.virtual_address (omega (arith, f.high)) in
            let end = segment_end_lem program size f in
            rw (load, good)
              (then-Ends
                (Mapped root (segment_end program) (segment_flags program) (segment_start program)
                  v)
                (Handled root contents size at v) _ _
                (map_segment-Ends (segment_end program - segment_start program) root
                  (segment_start program) (segment_end program) (segment_flags program) v
                  (omega arith) (omega (arith, end, f.high)))
                (λ paged m.
                  let now = read_program paged.memory at in
                  map-Ends
                    (λ w c. inr (record {
                      loadable = ground (arith, load);
                      fits = f;
                      paged = paged;
                      mapped = rw (← end, ← first) m;
                      copied = c;
                    }))
                    (copy_segment-Ends now.file_size root now.file_size now.virtual_address
                      (contents + now.offset) paged (omega arith))))
      ]
    ]

count_small : (memory : ℕ → ℕ) (a : ℕ) → (read_header memory a).program_header_count < 65536
unfolding read_header
count_small memory a = unfold field byte_at in omega arith

pub load_programs-Ends :
    (left index root programs contents size : ℕ) (v : Vmm)
    → left + index ≡ 65535
    → Ends
        (Loads root programs contents size index v)
        (load_programs left index root programs contents size v)
unfolding load_programs
load_programs-Ends zero index root programs contents size v h =
    let count = count_small v.memory contents in
    let all : leb (read_header v.memory contents).program_header_count index ≡ true =
      ground arith in
    rw all ((true, v), refl, inr (loads_all index v (omega arith)))
load_programs-Ends (suc left) index root programs contents size v h =
    elim (dec_lt index (read_header v.memory contents).program_header_count) [
      | no past ↦
          let all : leb (read_header v.memory contents).program_header_count index ≡ true =
            ground arith in
          rw all ((true, v), refl, inr (loads_all index v (omega arith)))
      | yes more ↦
          let one : leb (read_header v.memory contents).program_header_count index ≡ false =
            ground arith in
          rw one (
            then-Ends (Handled root contents size (programs + index * 56) v)
              (Loads root programs contents size index v) _ _
              (load_program-Ends root contents size (programs + index * 56) v)
              (λ u p.
                map-Ends (λ w l. loads_one index v u w more p l)
                  (load_programs-Ends left (index + 1) root programs contents size u
                    (omega arith))))
    ]
