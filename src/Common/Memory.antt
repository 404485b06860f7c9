-- ===== src/Common/Memory.antt =====
-- A region of memory behind a pointer: what is stored at each index from it.
use Prim.Native.Nat.{ℕ}
use mathlib.Core.Path.{◌≡◌, refl, ◌∙◌}
use mathlib.Core.Logic.{◌≢◌}
use native.Mathlib.Omega.{arith}
use operatingsystem.Common.Tests.{◌==◌, if◌then◌else◌, ==_refl, ==-eq-false}

-- `p[i] = v`
unfoldable pub write {ℓ} : {A : Type ℓ} → (ℕ → A) → ℕ → A → ℕ → A
write p i v j = if j == i then v else p j

pub write_lem {ℓ} :
    {A : Type ℓ} (p : ℕ → A) (i : ℕ) (v : A) (j : ℕ) → write p i v j ≡ (if j == i then v else p j)
unfolding write
write_lem p i v j = ground arith

pub write-at {ℓ} : {A : Type ℓ} (m : ℕ → A) (p : ℕ) (v : A) → write m p v p ≡ v
write-at m p v = write_lem m p v p ∙ rw (==_refl p) refl

pub write-off {ℓ} : {A : Type ℓ} (m : ℕ → A) (p : ℕ) (v : A) (q : ℕ) → q ≢ p → write m p v q ≡ m q
write-off m p v q ne = write_lem m p v q ∙ rw (==-eq-false ne) refl
