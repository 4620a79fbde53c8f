-- ===== src/Alloc/Loops.antt =====
-- The loops over the eight contexts of the _new and _destroy functions (src/rle_transmitter.c,
-- src/rle_receiver.c).
use mathlib.Core.Path.{ap₂}
use librle.Prelude.{
  ◌⊎◌, ℕ, zero, suc, ◌+◌, ◌≤◌, ◌<◌, ◌≡◌, ◌==◌, Bool, true, false, Option, none, some, List, [],
  ◌++◌, set_at, ◌>>=◌, arith, refl, ap, sym, subst, ◌∙◌, inl, inr, Bool-cases, eq_of_==,
  append_assoc, append-nil,
}
use librle.Ctx.{flush, set_seq_nb}
use librle.Alloc.{Heap, Slot, free_all, init_buf, init_ctxs, destroy_buf, destroy_ctxs}
use librle.Alloc.Blocks.{Over, IsFresh, free_all-append}
use librle.Alloc.Makes.{Grown, Makes}

-- The blocks behind the pointer of a context, and those of `n` contexts from context `i` on.
abbrev pub slot_blocks : {B : Type 0} → Slot B → List ℕ
slot_blocks s = elim s.buff [ none ↦ [] | some blocks ↦ blocks ]

abbrev pub held : {B : Type 0} → ℕ → ℕ → (ℕ → Slot B) → List ℕ
held zero i slots = []
held (suc n) i slots = slot_blocks (slots i) ++ held n (suc i) slots

held-same :
    {B : Type 0} (n i : ℕ) (s t : ℕ → Slot B)
    → ((j : ℕ) → i ≤ j → j < i + n → slot_blocks (s j) ≡ slot_blocks (t j))
    → held n i s ≡ held n i t
held-same zero i s t h = refl
held-same (suc n) i s t h =
    ap₂ ◌++◌ (h i (omega arith) (omega arith))
      (held-same n (suc i) s t (λ j lo hi. h j (omega arith) (omega arith)))

held-add :
    {B : Type 0} (m n i : ℕ) (s : ℕ → Slot B) → held (m + n) i s ≡ held m i s ++ held n (i + m) s
held-add zero n i s =
    rw ((let e : 0 + n ≡ n = omega arith in e), (let e : i + 0 ≡ i = omega arith in e)) refl
held-add (suc m) n i s = rw (let e : suc m + n ≡ suc (m + n) = omega arith in e) (
    ap (λ t. slot_blocks (s i) ++ t)
      (held-add m n (suc i) s
        ∙ ap (λ k. held m (suc i) s ++ held n k s)
            (let e : suc i + m ≡ i + suc m = omega arith in e))
    ∙ sym (append_assoc (slot_blocks (s i)) (held m (suc i) s) (held n (i + suc m) s)))

held-empty :
    {B : Type 0} (n i : ℕ) (s : ℕ → Slot B)
    → ((j : ℕ) → i ≤ j → (s j).buff ≡ none)
    → held n i s ≡ []
held-empty zero i s h = refl
held-empty (suc n) i s h =
    rw (h i (omega arith)) (held-empty n (suc i) s (λ j above. h j (omega arith)))

bind_same :
    (m : Option Heap) (f g : Heap → Option Heap) → ((h : Heap) → f h ≡ g h) → (m >>= f) ≡ (m >>= g)
bind_same none f g e = refl
bind_same (some h) f g e = e h

-- A context without a buffer is passed over only where that is allowed.
abbrev pub MayDestroy : Bool → Option (List ℕ) → Type 0
MayDestroy must buff = (must ≡ false) ⊎ ((blocks : List ℕ) × (buff ≡ some blocks))

destroy_buf-blocks :
    (must : Bool) (buff : Option (List ℕ)) (h : Heap)
    → MayDestroy must buff
    → destroy_buf must buff h ≡ free_all h (elim buff [ none ↦ [] | some blocks ↦ blocks ])
unfolding destroy_buf free_all
destroy_buf-blocks must none h (inl e) = rw e refl
destroy_buf-blocks must none h (inr (blocks, e)) = absurd (let k : none ≡ some blocks = e in cc)
destroy_buf-blocks must (some blocks) h ok = refl

-- Giving back what the contexts hold.
pub destroy_ctxs-held :
    {B : Type 0} (must : Bool) (n i : ℕ) (s : ℕ → Slot B) (h : Heap)
    → ((j : ℕ) → i ≤ j → j < i + n → MayDestroy must (s j).buff)
    → destroy_ctxs must n i s h ≡ free_all h (held n i s)
unfolding destroy_ctxs free_all
destroy_ctxs-held must zero i s h ok = refl
destroy_ctxs-held must (suc n) i s h ok =
    ap (λ m. m >>= λ k. destroy_ctxs must n (suc i) s k)
      (destroy_buf-blocks must (s i).buff h (ok i (omega arith) (omega arith)))
    ∙ (bind_same (free_all h (slot_blocks (s i))) _ _
          (λ k. destroy_ctxs-held must n (suc i) s k (λ j lo hi. ok j (omega arith) (omega arith)))
        ∙ sym (free_all-append (slot_blocks (s i)) (held n (suc i) s) h))

-- A context that is set up.
pub record IsReady {B : Type 0} (j : ℕ) (s : Slot B) : Type 0 where
  pub buff : (blocks : List ℕ) × (s.buff ≡ some blocks)
  pub frag_id : s.ctx.frag_id ≡ j
  pub next_seq_nb : s.ctx.next_seq_nb ≡ 0

-- What is known of a loop that has come to context `i`.
pub record IsUnder {B : Type 0} (base : ℕ → Bool) (i : ℕ) (s : ℕ → Slot B) (h : Heap) : Type 0 where
  pub fresh : IsFresh h
  pub over : Over base h.live (held i 0 s)
  pub rest : (j : ℕ) → i ≤ j → (s j).buff ≡ none
  pub ready : (j : ℕ) → j < i → IsReady j (s j)

-- What the set-up of one context comes to: nothing is allocated, or a buffer is.
abbrev SetUp : {B : Type 0} → Slot B → Heap → Option (Bool × Slot B × Heap) → Type 0
SetUp s h r =
    ((k : Heap) × (r ≡ some (false, record s { buff = none }, k)) × IsFresh k × (k.live ≡ h.live))
    ⊎ ((k : Heap) × (blocks : List ℕ) × (c : _) × (r
          ≡ some (true, record { buff = some blocks; content = c; ctx = flush s.ctx }, k))
        × IsFresh k
        × Grown (some blocks) h.live k.live)

init_buf-made :
    {B : Type 0} (make : Heap → Option (Option (List ℕ) × Heap)) (init : B → Option B) (s : Slot B)
    (h k : Heap) (p : Option (List ℕ))
    → ((b : B) → (c : B) × (init b ≡ some c))
    → make h ≡ some (p, k)
    → IsFresh k
    → Grown p h.live k.live
    → SetUp s h (init_buf make init s h)
unfolding init_buf
init_buf-made make init s h k none total e fresh grown = inl (k, rw e refl, fresh, grown)
init_buf-made make init s h k (some blocks) total e fresh grown =
    let (c, done) = total s.content in inr (k, blocks, c, rw (e, done) refl, fresh, grown)

held-one : {B : Type 0} (j : ℕ) (t : ℕ → Slot B) → held 1 j t ≡ slot_blocks (t j)
held-one j t = append-nil (slot_blocks (t j))

-- The contexts with `new` in the place of context `i`.
held-extended :
    {B : Type 0} (i : ℕ) (s : ℕ → Slot B) (new : Slot B)
    → held (suc i) 0 (set_at s i new) ≡ held i 0 s ++ slot_blocks new
held-extended i s new =
    ap (λ m. held m 0 (set_at s i new)) (let e : suc i ≡ i + 1 = omega arith in e)
    ∙ (held-add i 1 0 (set_at s i new)
        ∙ ap₂ ◌++◌
            (held-same i 0 (set_at s i new) s
              (λ j lo hi. rw (let e : (j == i) ≡ false = ground arith in e) refl))
            (held-one (0 + i) (set_at s i new)
              ∙ rw (let e : (0 + i == i) ≡ true = ground arith in e) refl))

fresh_heap :
    {B : Type 0} (base : ℕ → Bool) (n i : ℕ) (s : ℕ → Slot B) (h k : Heap) (new : Slot B)
    → IsUnder base i s h
    → k.live ≡ h.live
    → new.buff ≡ none
    → Over base k.live (held (i + suc n) 0 (set_at s i new))
fresh_heap base n i s h k new v same empty =
    subst (Over base k.live) (sym all_held)
      (subst (λ m. Over base m (held i 0 s)) (sym same) v.over)
  where
    others : (j : ℕ) → suc i ≤ j → (set_at s i new j).buff ≡ none
    others j above = rw (let e : (j == i) ≡ false = ground arith in e) (v.rest j (omega arith))

    none_here : slot_blocks new ≡ []
    none_here = rw empty refl

    all_held : held (i + suc n) 0 (set_at s i new) ≡ held i 0 s
    all_held =
        ap (λ m. held m 0 (set_at s i new)) (let e : i + suc n ≡ suc i + n = omega arith in e)
        ∙ (held-add (suc i) n 0 (set_at s i new)
            ∙ (ap₂ ◌++◌ (held-extended i s new ∙ ap (λ t. held i 0 s ++ t) none_here)
                  (held-empty n (0 + suc i) (set_at s i new) (λ j above. others j (omega arith)))
                ∙ (append-nil (held i 0 s ++ []) ∙ append-nil (held i 0 s))))

extended-IsUnder :
    {B : Type 0} (base : ℕ → Bool) (i : ℕ) (s : ℕ → Slot B) (h k : Heap) (blocks : List ℕ)
    (new : Slot B)
    → IsUnder base i s h
    → IsFresh k
    → Grown (some blocks) h.live k.live
    → new.buff ≡ some blocks
    → IsReady i new
    → IsUnder base (suc i) (set_at s i new) k
extended-IsUnder base i s h k blocks new v fresh grown e ready = record {
  fresh = fresh;
  over =
      subst (Over base k.live)
        (sym (
          held-extended i s new
          ∙ ap (λ t. held i 0 s ++ t) (let f : slot_blocks new ≡ blocks = rw e refl in f)))
        (grown base (held i 0 s) v.over);
  rest = λ j above. rw (let f : (j == i) ≡ false = ground arith in f) (v.rest j (omega arith));
  ready = λ j below. elim (Bool-cases (j == i)) [
    | inl same ↦ rw same (subst (λ m. IsReady m new) (sym (eq_of_== j i same)) ready)
    | inr other ↦ rw other (v.ready j (ground arith))
  ];
}

-- What the loop of the _new functions comes to: every block is held by a context, and where it ends
-- well, every context is set up.
abbrev pub Filled : {B : Type 0} → (ℕ → Bool) → ℕ → Option (Bool × (ℕ → Slot B) × Heap) → Type 0
Filled {B} base n r =
    (ok : Bool) × (t : ℕ → Slot B) × (k : Heap) × (r ≡ some (ok, t, k))
    × Over base k.live (held n 0 t)
    × (ok ≡ true → (j : ℕ) → j < n → IsReady j (t j))

pub init_ctxs-Filled :
    {B : Type 0} (make : Heap → Option (Option (List ℕ) × Heap)) (init : B → Option B)
    (base : ℕ → Bool) (n i : ℕ) (s : ℕ → Slot B) (h : Heap)
    → Makes make
    → ((b : B) → (c : B) × (init b ≡ some c))
    → IsUnder base i s h
    → Filled base (i + n) (init_ctxs make init n i s h)
unfolding init_ctxs set_seq_nb
init_ctxs-Filled make init base zero i s h makes total v =
    rw (let e : i + 0 ≡ i = omega arith in e) (true, s, h, refl, v.over, λ _. v.ready)
init_ctxs-Filled make init base (suc n) i s h makes total v =
    let (p, k, e, fresh, grown) = makes h v.fresh in
    elim (init_buf-made make init (s i) h k p total e fresh grown) [
      | inl (q, failed, _, same) ↦ rw failed (
        false,
        set_at s i (record (s i) { buff = none }),
        q,
        refl,
        fresh_heap base n i s h q (record (s i) { buff = none }) v same refl,
        λ h. cc,
      )
      | inr (q, blocks, c, made, q_fresh, q_grown) ↦
          rw (made, (let e : i + suc n ≡ suc i + n = omega arith in e))
            (init_ctxs-Filled make init base n (suc i) _ q makes total (
              extended-IsUnder base i s h q blocks
                (record {
                  buff = some blocks;
                  content = c;
                  ctx = set_seq_nb (record (flush (s i).ctx) { frag_id = i }) 0;
                })
                v q_fresh q_grown refl
                (record { buff = (blocks, refl); frag_id = refl; next_seq_nb = refl })))
    ]
