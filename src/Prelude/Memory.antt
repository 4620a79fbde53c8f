-- ===== src/Prelude/Memory.antt =====
-- A byte array as a function of the offset. Bounds are checked by the operations that use it.
use librle.Prelude.Tests.{◌==◌, if◌then◌else◌}
use librle.Prelude.Lists.{length, take, drop}
use Prim.Native.Nat.{ℕ, zero, suc, ◌+◌, ◌-◌, ◌≤◌, ◌<◌}
use mathlib.Core.Path.{◌≡◌, refl, ap, ap₂, ◌∙◌}
use mathlib.Core.Logic.{◌⊎◌, inl, inr}
use mathlib.Core.List.{List, [], ◌∷◌, ◌++◌}
use native.Mathlib.Omega.{arith}

abbrev pub Memory : Type 0
Memory = ℕ → ℕ

-- `memset(m, '\0', …)`
abbrev pub zeroed : Memory
zeroed i = 0

-- The bytes `xs` written from offset `a` on.
unfoldable pub store : Memory → ℕ → List ℕ → Memory
store m a [] i = m i
store m a (x ∷ xs) i = if i == a then x else store m (suc a) xs i

-- The `n` bytes from offset `a` on.
unfoldable pub slice : Memory → ℕ → ℕ → List ℕ
slice m a zero = []
slice m a (suc n) = m a ∷ slice m (suc a) n

pub length-slice : (m : Memory) (a n : ℕ) → length (slice m a n) ≡ n
unfolding slice
length-slice m a zero = refl
length-slice m a (suc n) = ap suc (length-slice m (suc a) n)

pub slice-add : (m : Memory) (a n k : ℕ) → slice m a (n + k) ≡ slice m a n ++ slice m (a + n) k
unfolding slice
slice-add m a zero k = ap₂ (λ u v. slice m u v) {x = a} (omega arith) (omega arith)
slice-add m a (suc n) k =
    ap (slice m a) (let e : suc n + k ≡ suc (n + k) = omega arith in e)
    ∙ ap (λ t. m a ∷ t)
        (slice-add m (suc a) n k
          ∙ ap (λ u. slice m (suc a) n ++ slice m u k)
              (let e : suc a + n ≡ a + suc n = omega arith in e))

pub take-slice : (m : Memory) (a n k : ℕ) → n ≤ k → take n (slice m a k) ≡ slice m a n
unfolding slice
take-slice m a zero k h = refl
take-slice m a (suc n) zero h = absurd (omega arith)
take-slice m a (suc n) (suc k) h = ap (λ t. m a ∷ t) (take-slice m (suc a) n k (omega arith))

pub drop-slice : (m : Memory) (a n k : ℕ) → n ≤ k → drop n (slice m a k) ≡ slice m (a + n) (k - n)
unfolding slice
drop-slice m a zero k h = ap₂ (λ u v. slice m u v) {x = a} (omega arith) (omega arith)
drop-slice m a (suc n) zero h = absurd (omega arith)
drop-slice m a (suc n) (suc k) h =
    drop-slice m (suc a) n k (omega arith)
    ∙ ap₂ (λ u v. slice m u v) {x = suc a + n} (omega arith) (omega arith)

pub store_outside :
    (m : Memory) (a : ℕ) (xs : List ℕ) (i : ℕ)
    → (i < a) ⊎ (a + length xs ≤ i)
    → store m a xs i ≡ m i
unfolding store
store_outside m a [] i h = refl
store_outside m a (x ∷ xs) i (inl h) =
    ground (arith, store_outside m (suc a) xs i (inl (omega arith)))
store_outside m a (x ∷ xs) i (inr h) =
    ground (arith, store_outside m (suc a) xs i (inr (omega arith)))

-- A slice does not see a write beside it.
pub slice-store_disjoint :
    (m : Memory) (a : ℕ) (xs : List ℕ) (b n : ℕ)
    → (b + n ≤ a) ⊎ (a + length xs ≤ b)
    → slice (store m a xs) b n ≡ slice m b n
unfolding slice
slice-store_disjoint m a xs b zero h = refl
slice-store_disjoint m a xs b (suc n) (inl h) =
    ap₂ ◌∷◌ (store_outside m a xs b (inl (omega arith)))
      (slice-store_disjoint m a xs (suc b) n (inl (omega arith)))
slice-store_disjoint m a xs b (suc n) (inr h) =
    ap₂ ◌∷◌ (store_outside m a xs b (inr (omega arith)))
      (slice-store_disjoint m a xs (suc b) n (inr (omega arith)))

slice_ext : (m k : Memory) (b n : ℕ) → ((i : ℕ) → b ≤ i → m i ≡ k i) → slice m b n ≡ slice k b n
unfolding slice
slice_ext m k b zero h = refl
slice_ext m k b (suc n) h =
    ap₂ ◌∷◌ (h b (omega arith)) (slice_ext m k (suc b) n (λ i p. h i (omega arith)))

-- What was written is read back.
pub slice-store_self : (m : Memory) (a : ℕ) (xs : List ℕ) → slice (store m a xs) a (length xs) ≡ xs
unfolding slice store
slice-store_self m a [] = refl
slice-store_self m a (x ∷ xs) = ap₂ ◌∷◌ (ground arith) (
    slice_ext (store m a (x ∷ xs)) (store m (suc a) xs) (suc a) (length xs) (λ i p. ground arith)
    ∙ slice-store_self m (suc a) xs)

pub slice-zero : (m : Memory) (a : ℕ) → slice m a 0 ≡ []
unfolding slice
slice-zero m a = refl
