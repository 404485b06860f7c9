-- ===== src/Elf/Range.antt =====
-- What the checks of the loader admit.
use operatingsystem.Common.{
  ℕ, ◌+◌, ◌-◌, ◌*◌, ◌^◌, ◌≤◌, ◌<◌, ◌≡◌, arith, true, false, Bool, not, ◌||◌, ltb, ◌==◌,
  if◌then◌else◌,
}
use operatingsystem.Elf.{valid_user_range, valid_header, read_header}

user_address :
    (address : ℕ) → valid_user_range address 1 ≡ true → (2 ^ 30 ≤ address) × (address < 2 ^ 47)
unfolding valid_user_range
user_address address e = ground (arith, e)

-- The file of `size` bytes at `contents` is an executable for the processor, whose entry point is a
-- user address and whose program headers lie in the file.
pub record Accepted (memory : ℕ → ℕ) (contents size : ℕ) : Type 0 where
  pub has_header : 64 ≤ size
  pub magic : (read_header memory contents).ident 0 ≡ 0x7f
  pub letter_e : (read_header memory contents).ident 1 ≡ b'E'
  pub letter_l : (read_header memory contents).ident 2 ≡ b'L'
  pub letter_f : (read_header memory contents).ident 3 ≡ b'F'
  pub has_64_bits : (read_header memory contents).ident 4 ≡ 2
  pub little_endian : (read_header memory contents).ident 5 ≡ 1
  pub header_bytes : (read_header memory contents).program_header_size ≡ 56
  pub machine : (read_header memory contents).machine ≡ 0x3e
  pub entry_low : 2 ^ 30 ≤ (read_header memory contents).entry
  pub entry_high : (read_header memory contents).entry < 2 ^ 47
  pub headers_in :
      (read_header memory contents).program_header_offset
        + (read_header memory contents).program_header_count * 56
      ≤ size

checks :
    (i0 i1 i2 i3 i4 i5 machine program_size : ℕ) (in_range : Bool) (offset bytes size : ℕ)
    → (if not (i0 == 0x7f)
          || not (i1 == b'E')
          || not (i2 == b'L')
          || not (i3 == b'F')
          || not (i4 == 2)
          || not (i5 == 1)
          || not (machine == 0x3e)
          || not (program_size == 56)
          || not in_range
        then false
        else not (ltb size offset || ltb (size - offset) bytes))
      ≡ true
    → (i0 ≡ 0x7f)
      × (machine ≡ 0x3e)
      × (in_range ≡ true)
      × (offset + bytes ≤ size)
      × (i1 ≡ b'E')
      × (i2 ≡ b'L')
      × (i3 ≡ b'F')
      × (i4 ≡ 2)
      × (i5 ≡ 1)
      × (program_size ≡ 56)
checks i0 i1 i2 i3 i4 i5 machine program_size in_range offset bytes size e = (
  ground (arith, e),
  ground (arith, e),
  ground (arith, e),
  ground (arith, e),
  ground (arith, e),
  ground (arith, e),
  ground (arith, e),
  ground (arith, e),
  ground (arith, e),
  ground (arith, e),
)

pub valid_header-Accepted :
    (memory : ℕ → ℕ) (contents size : ℕ)
    → 64 ≤ size
    → valid_header memory contents size ≡ true
    → Accepted memory contents size
unfolding valid_header
valid_header-Accepted memory contents size h e =
    let header = read_header memory contents in
    let c =
      checks (header.ident 0) (header.ident 1) (header.ident 2) (header.ident 3) (header.ident 4)
        (header.ident 5) header.machine header.program_header_size (valid_user_range header.entry 1)
        header.program_header_offset (header.program_header_count * 56) size e in
    let range = user_address header.entry c.2 in
    record {
      has_header = h;
      magic = c.0;
      letter_e = c.4;
      letter_l = c.5;
      letter_f = c.6;
      has_64_bits = c.7;
      little_endian = c.8;
      header_bytes = c.9;
      machine = c.1;
      entry_low = range.0;
      entry_high = range.1;
      headers_in = c.3;
    }
