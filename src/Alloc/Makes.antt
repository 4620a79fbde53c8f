-- ===== src/Alloc/Makes.antt =====
-- `rle_frag_buf_new` (src/fragmentation_buffer.c) and `rasm_buf_new` (src/reassembly_buffer.h): a
-- buffer with its blocks, or nothing allocated.
use librle.Prelude.{
  ℕ, suc, ◌≡◌, ◌==◌, Bool, true, false, Option, none, some, List, [], ◌∷◌, ◌++◌, set_at, ◌>>=◌,
  arith, refl, ap, sym, subst, ◌∙◌, inl, inr, Bool-cases, append-nil,
}
use librle.Alloc.{Heap, malloc, free, frag_buf_new, rasm_buf_new, rasm_struct, rasm_bytes}
use librle.Alloc.Blocks.{Over, IsFresh, Over-grant, undo}

-- The blocks that are there afterwards: those before, and those of the buffer behind them.
abbrev pub Grown : Option (List ℕ) → (ℕ → Bool) → (ℕ → Bool) → Type 0
Grown none old new = new ≡ old
Grown (some blocks) old new =
    (base : ℕ → Bool) (xs : List ℕ) → Over base old xs → Over base new (xs ++ blocks)

-- A function that makes a buffer or allocates nothing.
abbrev pub Makes : (Heap → Option (Option (List ℕ) × Heap)) → Type 0
Makes make =
    (h : Heap)
    → IsFresh h
    → (p : Option (List ℕ)) × (k : Heap) × (make h ≡ some (p, k))
      × IsFresh k
      × Grown p h.live k.live

-- The heap after a request that is granted, and after one that is not.
abbrev pub granted : Heap → Heap
granted h = record { next = suc h.next; live = set_at h.live h.next true }

abbrev pub refused : Heap → Heap
refused h = record h { next = suc h.next }

pub granted-IsFresh : (h : Heap) → IsFresh h → IsFresh (granted h)
granted-IsFresh h fresh a above =
    rw (let e : (a == h.next) ≡ false = ground arith in e) (fresh a (omega arith))

pub refused-IsFresh : (h : Heap) → IsFresh h → IsFresh (refused h)
refused-IsFresh h fresh a above = fresh a (omega arith)

pub malloc-yes :
    (grants : ℕ → Bool) (h : Heap)
    → grants h.next ≡ true
    → malloc grants h ≡ (some h.next, granted h)
unfolding malloc
malloc-yes grants h e = rw e refl

pub malloc-no :
    (grants : ℕ → Bool) (h : Heap) → grants h.next ≡ false → malloc grants h ≡ (none, refused h)
unfolding malloc
malloc-no grants h e = rw e refl

-- One block behind the others.
granted-Grown : (h : Heap) → IsFresh h → Grown (some (h.next ∷ [])) h.live (granted h).live
granted-Grown h fresh base xs over =
    Over-grant base h.live xs [] h.next (fresh h.next (omega arith))
      (subst (Over base h.live) (sym (append-nil xs)) over)

pub frag_buf_new-Makes : (grants : ℕ → Bool) → Makes (frag_buf_new grants)
unfolding frag_buf_new
frag_buf_new-Makes grants h fresh = elim (Bool-cases (grants h.next)) [
  | inl yes_it ↦ (
    some (h.next ∷ []),
    granted h,
    rw (malloc-yes grants h yes_it) refl,
    granted-IsFresh h fresh,
    granted-Grown h fresh,
  )
  | inr refusal ↦
      (none, refused h, rw (malloc-no grants h refusal) refl, refused-IsFresh h fresh, refl)
]

-- Two blocks behind the others, the later one first.
two-Grown :
    (h : Heap)
    → IsFresh h
    → Grown (some (suc h.next ∷ h.next ∷ [])) h.live (granted (granted h)).live
two-Grown h fresh base xs over =
    Over-grant base (granted h).live xs (h.next ∷ []) (suc h.next)
      (granted-IsFresh h fresh (suc h.next) (omega arith)) (granted-Grown h fresh base xs over)

-- The structure freed again.
given_back : Heap → Heap
given_back h = record {
  next = suc (suc h.next);
  live = set_at (set_at h.live h.next true) h.next false;
}

IsFresh-back : (h : Heap) → IsFresh h → IsFresh (given_back h)
unfolding given_back
IsFresh-back h fresh a above =
    rw (let e : (a == h.next) ≡ false = ground arith in e) (fresh a (omega arith))

free-given_back : (h : Heap) → free (refused (granted h)) h.next ≡ some (given_back h)
unfolding free given_back
free-given_back h = rw (let e : (granted h).live h.next ≡ true = ground arith in e) refl

rasm_buf_new-step :
    (grants : ℕ → Bool) (h : Heap) → rasm_buf_new grants h ≡ rasm_struct grants (malloc grants h)
unfolding rasm_buf_new
rasm_buf_new-step grants h = refl

rasm_struct-some :
    (grants : ℕ → Bool) (h : Heap) (a : ℕ)
    → rasm_struct grants (some a, h) ≡ rasm_bytes a (malloc grants h)
unfolding rasm_struct
rasm_struct-some grants h a = refl

pub rasm_buf_new-Makes : (grants : ℕ → Bool) → Makes (rasm_buf_new grants)
unfolding rasm_bytes rasm_struct given_back
rasm_buf_new-Makes grants h fresh = elim (Bool-cases (grants h.next)) [
  | inl yes_it ↦
      let first =
        rasm_buf_new-step grants h
        ∙ (ap (rasm_struct grants) (malloc-yes grants h yes_it)
            ∙ rasm_struct-some grants (granted h) h.next) in
      elim (Bool-cases (grants (suc h.next))) [
        | inl both ↦ (
          some (suc h.next ∷ h.next ∷ []),
          granted (granted h),
          first ∙ ap (rasm_bytes h.next) (malloc-yes grants (granted h) both),
          granted-IsFresh (granted h) (granted-IsFresh h fresh),
          two-Grown h fresh,
        )
        | inr refusal ↦ (
          none,
          given_back h,
          first
              ∙ (ap (rasm_bytes h.next) (malloc-no grants (granted h) refusal)
                  ∙ ap (λ m. m >>= λ k. some (none, k)) (free-given_back h)),
          (λ a above. IsFresh-back h fresh a above),
          undo h.live h.next (fresh h.next (omega arith)),
        )
      ]
  | inr refusal ↦ (
    none,
    refused h,
    rasm_buf_new-step grants h ∙ ap (rasm_struct grants) (malloc-no grants h refusal),
    refused-IsFresh h fresh,
    refl,
  )
]
