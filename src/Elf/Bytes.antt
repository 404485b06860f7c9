-- ===== src/Elf/Bytes.antt =====
-- Bytes in the words of the memory, and the loops that copy and clear them.
use operatingsystem.Common.{
  ℕ, zero, suc, ◌+◌, ◌-◌, ◌*◌, ◌/◌, ◌%◌, ◌^◌, ◌≤◌, ◌<◌, ◌≡◌, ◌≢◌, refl, ap, ◌∙◌, sym, arith,
}
use operatingsystem.Common.{
  write-at, write-off, ◌⊎◌, ◌==◌, ◌&&◌, leb, ltb, if◌then◌else◌, ℕ_discrete, dec_lt, ==-eq-false,
  ==_iff,
}
use native.Mathlib.Nat.{
  add-mul-div_right, div-eq_of_lt, mod-lt, mod-add-div, div-div-eq-div-mul, one-le-pow, pow-suc,
}
use operatingsystem.Elf.{byte_at, set_byte, write_byte, zero_memory, copy_memory}

-- A word of which `P` splits off the part below a byte.
split : (hi b P r : ℕ) → 0 < P → r < P → (hi * 256 * P + b * P + r) / P ≡ hi * 256 + b
split hi b P r pos l =
    let sum : hi * 256 * P + b * P + r ≡ r + (hi * 256 + b) * P = grind arith in
    ap (λ s. s / P) sum ∙ omega (arith, add-mul-div_right r (hi * 256 + b) pos, div-eq_of_lt l)

-- What stands above a byte is not seen in it.
above : (x M Q r : ℕ) → 0 < M → (r + x * (M * 256 * Q)) / M % 256 ≡ r / M % 256
above x M Q r pos =
    let sum : r + x * (M * 256 * Q) ≡ r + (x * Q * 256) * M = grind arith in
    ap (λ s. s / M % 256) sum ∙ omega (arith, add-mul-div_right r (x * Q * 256) pos)

set_byte-at : (word k b : ℕ) → b < 256 → set_byte word k b / 2 ^ (8 * k) % 256 ≡ b
unfolding set_byte
set_byte-at word k b h =
    let pos = one-le-pow (8 * k) 2 (omega arith) in
    omega (
      arith,
      split (word / 2 ^ (8 * k) / 256) b (2 ^ (8 * k)) (word % 2 ^ (8 * k)) pos (mod-lt word pos),
    )

eight_more : (m : ℕ) → 2 ^ (suc (suc (suc (suc (suc (suc (suc (suc m)))))))) ≡ 2 ^ m * 256
eight_more m = omega (
  arith,
  pow-suc 2 m,
  pow-suc 2 (suc m),
  pow-suc 2 (suc (suc m)),
  pow-suc 2 (suc (suc (suc m))),
  pow-suc 2 (suc (suc (suc (suc m)))),
  pow-suc 2 (suc (suc (suc (suc (suc m))))),
  pow-suc 2 (suc (suc (suc (suc (suc (suc m)))))),
  pow-suc 2 (suc (suc (suc (suc (suc (suc (suc m))))))),
)

eight : (n : ℕ) → 2 ^ (8 * suc n) ≡ 2 ^ (8 * n) * 256
eight n = ap (λ t. 2 ^ t) more ∙ eight_more (8 * n)
  where
    more : 8 * suc n ≡ suc (suc (suc (suc (suc (suc (suc (suc (8 * n))))))))
    more = omega arith

power : (j d : ℕ) → 2 ^ (8 * (j + 1 + d)) ≡ 2 ^ (8 * j) * 256 * 2 ^ (8 * d)
power j zero = ap (λ t. 2 ^ (8 * t)) first ∙ eight j ∙ omega arith
  where
    first : j + 1 + 0 ≡ suc j
    first = omega arith
power j (suc d) =
    ap (λ t. 2 ^ (8 * t)) next
    ∙ eight (j + 1 + d)
    ∙ ap (λ t. t * 256) (power j d)
    ∙ omega arith
    ∙ ap (λ t. 2 ^ (8 * j) * 256 * t) (sym (eight d))
  where
    next : j + 1 + suc d ≡ suc (j + 1 + d)
    next = omega arith

-- The same remainder below `P`, of which `M * 256` is a factor.
same_below :
    (x y r M Q P : ℕ) → 0 < M → P ≡ M * 256 * Q → (r + x * P) / M % 256 ≡ (r + y * P) / M % 256
same_below x y r M Q P pos e = rw e (above x M Q r pos ∙ sym (above y M Q r pos))

-- The same above the byte.
same_above : (v w P Q : ℕ) → v / P / 256 ≡ w / P / 256 → v / (P * 256 * Q) ≡ w / (P * 256 * Q)
same_above v w P Q e =
    sym (div-div-eq-div-mul v (P * 256) Q)
    ∙ ap (λ t. t / Q) (sym (div-div-eq-div-mul v P 256) ∙ e ∙ div-div-eq-div-mul w P 256)
    ∙ div-div-eq-div-mul w (P * 256) Q

set_byte-off :
    (word k b j : ℕ)
    → b < 256
    → j ≢ k
    → set_byte word k b / 2 ^ (8 * j) % 256 ≡ word / 2 ^ (8 * j) % 256
unfolding set_byte
set_byte-off word k b j h ne = elim (dec_lt j k) [
  | yes below ↦
      let e : j + 1 + (k - j - 1) ≡ k = omega arith in
      ap (λ s. s / 2 ^ (8 * j) % 256) sum
      ∙ same_below (word / 2 ^ (8 * k) / 256 * 256 + b) (word / 2 ^ (8 * k)) (word % 2 ^ (8 * k))
          (2 ^ (8 * j)) (2 ^ (8 * (k - j - 1))) (2 ^ (8 * k)) (one-le-pow (8 * j) 2 (omega arith))
          (ap (λ t. 2 ^ (8 * t)) (sym e) ∙ power j (k - j - 1))
      ∙ ap (λ s. s / 2 ^ (8 * j) % 256) whole
  | no not_below ↦
      let e : k + 1 + (j - k - 1) ≡ j = omega arith in
      let p = ap (λ t. 2 ^ (8 * t)) (sym e) ∙ power k (j - k - 1) in
      rw p (ap (λ t. t % 256) (same_above _ word (2 ^ (8 * k)) (2 ^ (8 * (j - k - 1))) upper))
]
  where
    pos : 0 < 2 ^ (8 * k)
    pos = one-le-pow (8 * k) 2 (omega arith)

    sum :
        word / 2 ^ (8 * k) / 256 * 256 * 2 ^ (8 * k) + b * 2 ^ (8 * k) + word % 2 ^ (8 * k)
        ≡ word % 2 ^ (8 * k) + (word / 2 ^ (8 * k) / 256 * 256 + b) * 2 ^ (8 * k)
    sum = grind arith

    whole : word % 2 ^ (8 * k) + word / 2 ^ (8 * k) * 2 ^ (8 * k) ≡ word
    whole = omega (arith, mod-add-div word (2 ^ (8 * k)))

    upper :
        (word / 2 ^ (8 * k) / 256 * 256 * 2 ^ (8 * k) + b * 2 ^ (8 * k) + word % 2 ^ (8 * k))
          / 2 ^ (8 * k)
          / 256
        ≡ word / 2 ^ (8 * k) / 256
    upper = omega (
      arith,
      split (word / 2 ^ (8 * k) / 256) b (2 ^ (8 * k)) (word % 2 ^ (8 * k)) pos (mod-lt word pos),
    )

write_byte_lem :
    (memory : ℕ → ℕ) (a b i : ℕ)
    → b < 256
    → byte_at (write_byte memory a b) i ≡ (if i == a then b else byte_at memory i)
unfolding byte_at write_byte
write_byte_lem memory a b i h = elim (ℕ_discrete (i / 8 * 8) (a / 8 * 8)) [
  | no other ↦
      let ne : i ≢ a = λ e. other (ap (λ t. t / 8 * 8) e) in
      rw (==-eq-false ne)
        (ap (λ w. w / 2 ^ (8 * (i % 8)) % 256) (write-off memory (a / 8 * 8) _ (i / 8 * 8) other))
  | yes same ↦
      let changed : write_byte memory a b (i / 8 * 8) ≡ set_byte (memory (a / 8 * 8)) (a % 8) b =
        ap (write_byte memory a b) same ∙ write-at memory (a / 8 * 8) _ in
      elim (ℕ_discrete i a) [
        | yes here ↦
            rw (here, (==_iff a a).1 refl)
              (ap (λ w. w / 2 ^ (8 * (a % 8)) % 256) (write-at memory (a / 8 * 8) _)
                ∙ set_byte-at (memory (a / 8 * 8)) (a % 8) b h)
        | no ne ↦ rw (==-eq-false ne) (
            ap (λ w. w / 2 ^ (8 * (i % 8)) % 256) changed
            ∙ set_byte-off (memory (a / 8 * 8)) (a % 8) b (i % 8) h (λ e. ne (omega arith))
            ∙ ap (λ t. memory t / 2 ^ (8 * (i % 8)) % 256) (sym same))
      ]
]

byte_at-small : (memory : ℕ → ℕ) (i : ℕ) → byte_at memory i < 256
unfolding byte_at
byte_at-small memory i = omega arith

-- One round of copying: the byte at `d + n` becomes that at `s + n`.
extend :
    (f : ℕ → ℕ) (d s n i now before new : ℕ)
    → now ≡ (if i == d + n then new else before)
    → new ≡ f (s + n)
    → before ≡ (if leb d i && ltb i (d + n) then f (s + (i - d)) else f i)
    → now ≡ (if leb d i && ltb i (d + suc n) then f (s + (i - d)) else f i)
extend f d s n i now before new e e' e'' = elim (ℕ_discrete i (d + n)) [
  | yes last ↦ let at : s + n ≡ s + (i - d) = omega arith in e ∙ ground (arith, e' ∙ ap f at)
  | no ne ↦ e ∙ rw (==-eq-false ne) (e'' ∙ ground arith)
]

-- The source is not written.
source_kept :
    (f : ℕ → ℕ) (d s n byte : ℕ)
    → (d + suc n ≤ s) ⊎ (s + suc n ≤ d)
    → byte ≡ (if leb d (s + n) && ltb (s + n) (d + n) then f (s + (s + n - d)) else f (s + n))
    → byte ≡ f (s + n)
source_kept f d s n byte apart e = ground (arith, e)

-- `copy_memory` of `n` bytes to a place apart from them puts each byte where it belongs and leaves
-- all other bytes as they were.
pub copy_memory_lem :
    (destination source n : ℕ) (memory : ℕ → ℕ) (i : ℕ)
    → (destination + n ≤ source) ⊎ (source + n ≤ destination)
    → byte_at (copy_memory destination source n memory) i ≡ (
        if leb destination i && ltb i (destination + n)
        then byte_at memory (source + (i - destination))
        else byte_at memory i)
unfolding copy_memory
copy_memory_lem d s zero memory i apart = ground arith
copy_memory_lem d s (suc n) memory i apart =
    let done = copy_memory d s n memory in
    extend (byte_at memory) d s n i (byte_at (copy_memory d s (suc n) memory) i) (byte_at done i)
      (byte_at done (s + n))
      (write_byte_lem done (d + n) (byte_at done (s + n)) i (byte_at-small done (s + n)))
      (source_kept (byte_at memory) d s n (byte_at done (s + n)) apart
        (copy_memory_lem d s n memory (s + n) (omega arith)))
      (copy_memory_lem d s n memory i (omega arith))

-- `zero_memory` clears `n` bytes and leaves all others as they were.
pub zero_memory_lem :
    (destination n : ℕ) (memory : ℕ → ℕ) (i : ℕ)
    → byte_at (zero_memory destination n memory) i
      ≡ (if leb destination i && ltb i (destination + n) then 0 else byte_at memory i)
unfolding zero_memory
zero_memory_lem d zero memory i = ground arith
zero_memory_lem d (suc n) memory i = ground (
  arith,
  write_byte_lem (zero_memory d n memory) (d + n) 0 i (omega arith),
  zero_memory_lem d n memory i,
)
