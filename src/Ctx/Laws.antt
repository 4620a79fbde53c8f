-- ===== src/Ctx/Laws.antt =====
-- The bit map of free contexts, one bit to a context (src/rle_ctx.h).
use librle.Prelude.{
  ℕ, ◌<◌, ◌≡◌, refl, Bool, true, false, not, ◌==◌, if◌then◌else◌, Option, none, some, arith,
}
use librle.Prelude.Tables.{passes, passes-at}
use librle.Ctx.{is_free, set_nonfree, set_free}

iff : Bool → Bool → Bool
iff true b = b
iff false b = not b

iff_eq : (a b : Bool) → iff a b ≡ true → a ≡ b
unfolding iff
iff_eq a b h = ground arith

-- What bit `j` of the map says, where there is a map.
answers : Option ℕ → ℕ → Bool → Bool
unfolding iff
answers none j b = false
answers (some c) j b = iff (is_free c j) b

nonfree_test : ℕ → ℕ → ℕ → Bool
unfolding answers
nonfree_test c i j = answers (set_nonfree c i) j (if j == i then false else is_free c j)

free_test : ℕ → ℕ → ℕ → Bool
unfolding answers
free_test c i j = answers (set_free c i) j (if j == i then true else is_free c j)

on_all : (ℕ → ℕ → ℕ → Bool) → Bool
on_all test = passes 256 λ c. passes 8 λ i. passes 8 λ j. test c i j

on_all_sound :
    (test : ℕ → ℕ → ℕ → Bool) (c i j : ℕ)
    → on_all test ≡ true
    → c < 256
    → i < 8
    → j < 8
    → test c i j ≡ true
unfolding on_all
on_all_sound test c i j h hc hi hj =
    passes-at 8 (λ k. test c i k) j
      (passes-at 8 (λ l. passes 8 λ k. test c l k) i
        (passes-at 256 (λ d. passes 8 λ l. passes 8 λ k. test d l k) c h hc) hi)
      hj

nonfree_table : on_all nonfree_test ≡ true
unfolding on_all passes nonfree_test set_nonfree is_free
nonfree_table = refl

free_table : on_all free_test ≡ true
unfolding on_all passes free_test set_free is_free
free_table = refl

answers_elim :
    (m : Option ℕ) (j : ℕ) (b : Bool)
    → answers m j b ≡ true
    → (d : ℕ) × (m ≡ some d) × (is_free d j ≡ b)
unfolding answers
answers_elim none j b h = cc
answers_elim (some d) j b h = (d, refl, iff_eq (is_free d j) b h)

-- Marking context `i` as used marks it, and no other.
pub is_free-set_nonfree :
    (c i j : ℕ)
    → c < 256
    → i < 8
    → j < 8
    → (d : ℕ) × (set_nonfree c i ≡ some d) × (is_free d j ≡ (if j == i then false else is_free c j))
unfolding nonfree_test
is_free-set_nonfree c i j hc hi hj =
    answers_elim _ j _ (on_all_sound nonfree_test c i j nonfree_table hc hi hj)

-- Freeing context `i` frees it, and no other.
pub is_free-set_free :
    (c i j : ℕ)
    → c < 256
    → i < 8
    → j < 8
    → (d : ℕ) × (set_free c i ≡ some d) × (is_free d j ≡ (if j == i then true else is_free c j))
unfolding free_test
is_free-set_free c i j hc hi hj =
    answers_elim _ j _ (on_all_sound free_test c i j free_table hc hi hj)
