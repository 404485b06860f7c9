-- ===== src/Ramfs/Names.antt =====
-- Names as texts: comparing and copying the arrays.
use operatingsystem.Common.{ℕ, ◌+◌, ◌<◌, ◌≡◌, ◌≢◌, refl, ap, ◌∙◌, arith}
use operatingsystem.Common.{List, [], ◌∷◌, length, Option, some, ◌==◌, ltb}
use operatingsystem.Common.{Bool, true, false, ◌&&◌, dec_lt, subst}
use operatingsystem.Ramfs.{names_equal, copy_from, copy_name}

-- The array holds the text `w`: its bytes, none of them zero, and then a zero.
abbrev pub IsText : List ℕ → List ℕ → Type 0
IsText [] w = ⊥
IsText (c ∷ cs) [] = c ≡ 0
IsText (c ∷ cs) (d ∷ w) = (c ≢ 0) × (c ≡ d) × IsText cs w

abbrev pub same_text : List ℕ → List ℕ → Bool
same_text [] [] = true
same_text [] (d ∷ ds) = false
same_text (c ∷ cs) [] = false
same_text (c ∷ cs) (d ∷ ds) = (c == d) && same_text cs ds

pub same_text_refl : (u : List ℕ) → same_text u u ≡ true
same_text_refl [] = refl
same_text_refl (c ∷ cs) = ground (arith, same_text_refl cs)

-- Two arrays that hold texts are compared without a read past either, and by their texts.
pub names_equal_lem :
    (a b u w : List ℕ) → IsText a u → IsText b w → names_equal a b ≡ some (same_text u w)
unfolding names_equal
names_equal_lem [] b u w p q = absurd p
names_equal_lem (c ∷ cs) [] u w p q = absurd q
names_equal_lem (c ∷ cs) (d ∷ ds) [] [] p q = ground arith
names_equal_lem (c ∷ cs) (d ∷ ds) [] (y ∷ w) p q = ground arith
names_equal_lem (c ∷ cs) (d ∷ ds) (x ∷ u) [] p q = ground arith
names_equal_lem (c ∷ cs) (d ∷ ds) (x ∷ u) (y ∷ w) p q =
    ground (arith, names_equal_lem cs ds u w p.2 q.2)

-- Copying the text `w` into the rest of an array of 32 bytes from index `index` on.
record IsCopied (index : ℕ) (w : List ℕ) (result : Option (Bool × List ℕ)) : Type 0 where
  done : Bool
  out : List ℕ
  returns : result ≡ some (done, out)
  fits : done ≡ ltb (index + length w) 32
  same_length : index + length out ≡ 32
  holds : done ≡ true → IsText out w

IsCopied-cons :
    (index c d : ℕ) (w destination source : List ℕ)
    → c ≢ 0
    → index + 1 < 32
    → IsCopied (index + 1) w (copy_from (index + 1) destination source)
    → IsCopied index (c ∷ w) (copy_from index (d ∷ destination) (c ∷ source))
unfolding copy_from
IsCopied-cons index c d w destination source nz l r = record {
  done = r.done;
  out = c ∷ r.out;
  returns = ground (arith, r.returns);
  fits = r.fits ∙ ap (λ n. ltb n 32) (omega arith);
  same_length = omega (arith, r.same_length);
  holds = λ h. (nz, refl, r.holds h);
}

copy_from-IsCopied :
    (index : ℕ) (destination source w : List ℕ)
    → IsText source w
    → index < 32
    → index + length destination ≡ 32
    → IsCopied index w (copy_from index destination source)
unfolding copy_from
copy_from-IsCopied index destination [] w t l e = absurd t
copy_from-IsCopied index [] (c ∷ source) w t l e = absurd (omega arith)
copy_from-IsCopied index (d ∷ destination) (c ∷ source) [] t l e = record {
  done = true;
  out = 0 ∷ destination;
  returns = ground arith;
  fits = ground arith;
  same_length = e;
  holds = λ h. refl;
}
copy_from-IsCopied index (d ∷ destination) (c ∷ source) (x ∷ w) t l e =
    elim (dec_lt (index + 1) 32) [
      | yes more ↦
          subst (λ y. IsCopied index (y ∷ w) (copy_from index (d ∷ destination) (c ∷ source))) t.1
            (IsCopied-cons index c d w destination source t.0 more
              (copy_from-IsCopied (index + 1) destination source w t.2 more (omega arith)))
      | no full ↦ record {
        done = false;
        out = d ∷ destination;
        returns = ground arith;
        fits = ground arith;
        same_length = e;
        holds = λ h. cc;
      }
    ]

-- `copy_name` into an array of 32 bytes reads and writes inside both arrays, succeeds exactly for
-- texts of fewer than 32 bytes, and then the array holds the text.
pub copy_name_lem :
    (destination source w : List ℕ)
    → IsText source w
    → length destination ≡ 32
    → (out : List ℕ) × (copy_name destination source ≡ some (ltb (length w) 32, out))
      × (length out ≡ 32)
      × (ltb (length w) 32 ≡ true → IsText out w)
unfolding copy_name
copy_name_lem destination source w t e =
    let r = copy_from-IsCopied 0 destination source w t (omega arith) (omega arith) in
    let fits : r.done ≡ ltb (length w) 32 = r.fits ∙ ap (λ n. ltb n 32) (omega arith) in
    (r.out, rw (← fits) r.returns, omega (arith, r.same_length), λ h. r.holds (fits ∙ h))
