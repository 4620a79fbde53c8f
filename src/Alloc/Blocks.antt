-- ===== src/Alloc/Blocks.antt =====
-- Which blocks of the heap belong to whom.
use mathlib.Core.Path.{fun_ext}
use librle.Prelude.{
  ℕ, ◌≤◌, ◌≡◌, ◌==◌, Bool, true, false, some, List, [], ◌∷◌, ◌++◌, set_at, arith, refl, ap, sym,
  subst, ◌∙◌, ◌>>=◌, inl, inr, Bool-cases, eq_of_==,
}
use librle.Alloc.{Heap, free, free_all}

-- Freeing the blocks one after another leaves those of `base`.
abbrev pub Over : (ℕ → Bool) → (ℕ → Bool) → List ℕ → Type 0
Over base live [] = live ≡ base
Over base live (x ∷ xs) = (live x ≡ true) × Over base (set_at live x false) xs

-- No block is allocated that was not requested.
abbrev pub IsFresh : Heap → Type 0
IsFresh h = (a : ℕ) → h.next ≤ a → h.live a ≡ false

undo_at :
    (live : ℕ → Bool) (y a : ℕ) → live y ≡ false → set_at (set_at live y true) y false a ≡ live a
undo_at live y a h = elim (Bool-cases (a == y)) [
  | inl same ↦ rw same (sym (ap live (eq_of_== a y same) ∙ h))
  | inr other ↦ rw other refl
]

pub undo : (live : ℕ → Bool) (y : ℕ) → live y ≡ false → set_at (set_at live y true) y false ≡ live
undo live y h = fun_ext (λ a. undo_at live y a h)

swap_at :
    (live : ℕ → Bool) (x y a : ℕ)
    → (x == y) ≡ false
    → set_at (set_at live x false) y true a ≡ set_at (set_at live y true) x false a
swap_at live x y a h = elim (Bool-cases (a == y)) [
  | inl same ↦ rw (same, (let e : (a == x) ≡ false = ground arith in e)) refl
  | inr other ↦ rw other refl
]

swap :
    (live : ℕ → Bool) (x y : ℕ)
    → (x == y) ≡ false
    → set_at (set_at live x false) y true ≡ set_at (set_at live y true) x false
swap live x y h = fun_ext (λ a. swap_at live x y a h)

differ_of : (live : ℕ → Bool) (x y : ℕ) → live x ≡ true → live y ≡ false → (x == y) ≡ false
differ_of live x y hx hy = elim (Bool-cases (x == y)) [
  | inl same ↦ absurd (let e : true ≡ false = sym hx ∙ (ap live (eq_of_== x y same) ∙ hy) in cc)
  | inr other ↦ other
]

-- One more block, freed between those before and those behind it.
pub Over-grant :
    (base live : ℕ → Bool) (xs zs : List ℕ) (y : ℕ)
    → live y ≡ false
    → Over base live (xs ++ zs)
    → Over base (set_at live y true) (xs ++ (y ∷ zs))
Over-grant base live [] zs y h over =
    (ground arith, subst (λ m. Over base m zs) (sym (undo live y h)) over)
Over-grant base live (x ∷ xs) zs y h (at_x, over) =
    let other = differ_of live x y at_x h in
    (
      rw other at_x,
      subst (λ m. Over base m (xs ++ (y ∷ zs))) (swap live x y other)
          (Over-grant base (set_at live x false) xs zs y
            (let e : set_at live x false y ≡ false = ground arith in e) over),
    )

-- The blocks can be freed.
pub free_all-Over :
    (base : ℕ → Bool) (xs : List ℕ) (h : Heap)
    → Over base h.live xs
    → (k : Heap) × (free_all h xs ≡ some k) × (k.live ≡ base) × (k.next ≡ h.next)
unfolding free_all free
free_all-Over base [] h over = (h, refl, over, refl)
free_all-Over base (x ∷ xs) h (at_x, over) =
    let (k, freed, same, next) =
      free_all-Over base xs (record h { live = set_at h.live x false }) over in
    (k, rw at_x freed, same, next)

pub free_all-append :
    (xs ys : List ℕ) (h : Heap) → free_all h (xs ++ ys) ≡ (free_all h xs >>= λ k. free_all k ys)
unfolding free_all
free_all-append [] ys h = refl
free_all-append (x ∷ xs) ys h = elim (Bool-cases (h.live x)) [
  | inl at_x ↦ rw at_x (free_all-append xs ys (record h { live = set_at h.live x false }))
  | inr gone ↦ rw gone refl
]
