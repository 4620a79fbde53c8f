-- ===== src/Alloc/Laws.antt =====
-- Nothing is leaked by the _new and _destroy functions (src/rle_transmitter.c, src/rle_receiver.c).
use librle.Prelude.{
  ℕ, ◌<◌, ◌≡◌, ◌⊎◌, Bool, true, false, Option, none, some, List, set_at, ◌>>=◌, arith, refl, ap,
  sym, subst, ◌∙◌, inl, inr, Bool-cases,
}
use librle.Config.{Config, config_check}
use librle.FragBuf.{FragBuf, frag_buf_init, ptrs_set}
use librle.RasmBuf.{RasmBuf, rasm_buf_init, rasm_ptrs_set}
use librle.Alloc.{
  Heap, Slot, Module, free, frag_buf_new, rasm_buf_new, destroy_ctxs, finish_module, fill_module,
  new_module, cleared, transmitter_new, receiver_new, destroy,
}
use librle.Alloc.Blocks.{Over, IsFresh, free_all-Over, undo}
use librle.Alloc.Makes.{
  Makes, granted, refused, granted-IsFresh, malloc-yes, malloc-no, frag_buf_new-Makes,
  rasm_buf_new-Makes,
}
use librle.Alloc.Loops.{IsReady, IsUnder, held, destroy_ctxs-held, init_ctxs-Filled}

-- Nothing is made, and the heap holds the same blocks as before; or a module is made, with its eight
-- contexts ready, and once it is destroyed, the heap holds the same blocks as before.
abbrev pub LeaksNothing : {B : Type 0} → Heap → Config → Option (Option (Module B) × Heap) → Type 0
LeaksNothing {B} h conf r =
    ((k : Heap) × (r ≡ some (none, k)) × (k.live ≡ h.live))
    ⊎ ((m : Module B) × (k z : Heap) × (r ≡ some (some m, k))
        × (destroy m k ≡ some z)
        × (z.live ≡ h.live)
        × (m.conf ≡ conf)
        × ((j : ℕ) → j < 8 → IsReady j (m.slots j)))

-- The module's own block is freed last.
free_self :
    (h k : Heap)
    → IsFresh h
    → k.live ≡ (granted h).live
    → (z : Heap) × (free k h.next ≡ some z) × (z.live ≡ h.live)
unfolding free
free_self h k fresh same = (
  record k { live = set_at k.live h.next false },
  rw (let e : k.live h.next ≡ true = ap (λ l. l h.next) same ∙ ground arith in e) refl,
  ap (λ l. set_at l h.next false) same ∙ undo h.live h.next (fresh h.next (omega arith)),
)

free_both :
    {B : Type 0} (must : Bool) (h k : Heap) (t : ℕ → Slot B)
    → IsFresh h
    → Over (granted h).live k.live (held 8 0 t)
    → ((j : ℕ) → j < 8 → (must ≡ false) ⊎ ((blocks : List ℕ) × ((t j).buff ≡ some blocks)))
    → (z : Heap) × ((destroy_ctxs must 8 0 t k >>= λ q. free q h.next) ≡ some z) × (z.live ≡ h.live)
free_both must h k t fresh over may =
    let (q, freed, same, _) = free_all-Over (granted h).live (held 8 0 t) k over in
    let (z, gone, back) = free_self h q fresh same in
    (
      z,
      ap (λ m. m >>= λ x. free x h.next)
            (destroy_ctxs-held must 8 0 t k (λ j lo hi. may j (omega arith)) ∙ freed)
          ∙ gone,
      back,
    )

given_up :
    {B : Type 0} (m : Option Heap) (a : ℕ) (z : Heap)
    → (m >>= λ q. free q a) ≡ some z
    → ◌≡◌ {A = Option (Option (Module B) × Heap)}
        (m >>= λ q. free q a >>= λ y. some (none, y))
        (some (none, z))
given_up none a z e = cc
given_up (some q) a z e = rw e refl

finished :
    {B : Type 0} (conf : Config) (h k : Heap) (ok : Bool) (t : ℕ → Slot B)
    → IsFresh h
    → Over (granted h).live k.live (held 8 0 t)
    → (ok ≡ true → (j : ℕ) → j < 8 → IsReady j (t j))
    → LeaksNothing h conf (finish_module conf h.next (ok, t, k))
unfolding finish_module destroy
finished conf h k true t fresh over ready =
    let (z, gone, back) =
      free_both true h k t fresh over (λ j small. inr (ready refl j small).buff) in
    inr (record { self = h.next; slots = t; conf = conf }, k, z, refl, gone, back, refl, ready refl)
finished conf h k false t fresh over ready =
    let (z, gone, back) = free_both false h k t fresh over (λ j small. inl refl) in
    inl (z, given_up (destroy_ctxs false 8 0 t k) h.next z gone, back)

cleared-IsUnder :
    {B : Type 0} (garbage : ℕ → B) (h : Heap)
    → IsFresh h
    → IsUnder (granted h).live 0 (cleared garbage) (granted h)
cleared-IsUnder garbage h fresh = record {
  fresh = granted-IsFresh h fresh;
  over = refl;
  rest = λ j above. refl;
  ready = λ j below. absurd (omega arith);
}

new_module-LeaksNothing :
    {B : Type 0} (grants : ℕ → Bool) (make : Heap → Option (Option (List ℕ) × Heap))
    (init : B → Option B) (garbage : ℕ → B) (conf : Config) (h : Heap)
    → Makes make
    → ((b : B) → (c : B) × (init b ≡ some c))
    → IsFresh h
    → LeaksNothing h conf (new_module grants make init (cleared garbage) conf h)
unfolding new_module fill_module
new_module-LeaksNothing grants make init garbage conf h makes total fresh =
    elim (Bool-cases (grants h.next)) [
      | inl given ↦
          let (ok, t, k, e, over, ready) =
            init_ctxs-Filled make init (granted h).live 8 0 (cleared garbage) (granted h) makes
              total (cleared-IsUnder garbage h fresh) in
          rw (malloc-yes grants h given) (
            subst (λ m. LeaksNothing h conf (m >>= finish_module conf h.next)) (sym e)
              (finished conf h k ok t fresh over ready))
      | inr refusal ↦ rw (malloc-no grants h refusal) (inl (refused h, refl, refl))
    ]

frag_buf_init-total : (b : FragBuf) → (c : FragBuf) × (frag_buf_init b ≡ some c)
unfolding frag_buf_init ptrs_set
frag_buf_init-total b = (_, refl)

rasm_buf_init-total : (b : RasmBuf) → (c : RasmBuf) × (rasm_buf_init b ≡ some c)
unfolding rasm_buf_init rasm_ptrs_set
rasm_buf_init-total b = (_, refl)

-- Whichever requests for memory are granted and whatever a new buffer holds, `rle_transmitter_new`
-- of a configuration has no fault. Either it returns NULL and the heap has the same blocks as before,
-- or it returns a transmitter with that configuration whose eight contexts have a buffer, their own
-- fragment id and the sequence number 0, and `rle_transmitter_destroy` of it leaves the same
-- blocks as before, without a fault. The heap has no block with the number of a later request.
pub transmitter_new-LeaksNothing :
    (grants : ℕ → Bool) (garbage : ℕ → FragBuf) (conf : Config) (h : Heap)
    → IsFresh h
    → LeaksNothing h conf (transmitter_new grants garbage (some conf) h)
unfolding transmitter_new
transmitter_new-LeaksNothing grants garbage conf h fresh =
    elim (Bool-cases (config_check (some conf))) [
      | inl valid ↦ rw valid (
          new_module-LeaksNothing grants (frag_buf_new grants) frag_buf_init garbage conf h
            (frag_buf_new-Makes grants) frag_buf_init-total fresh)
      | inr wrong ↦ rw wrong (inl (h, refl, refl))
    ]

-- Whichever requests for memory are granted and whatever a new buffer holds, `rle_receiver_new` of
-- a configuration has no fault. Either it returns NULL and the heap has the same blocks as before,
-- or it returns a receiver with that configuration whose eight contexts have a buffer, their own
-- fragment id and the sequence number 0, and `rle_receiver_destroy` of it leaves the same blocks
-- as before, without a fault. The heap has no block with the number of a later request.
pub receiver_new-LeaksNothing :
    (grants : ℕ → Bool) (garbage : ℕ → RasmBuf) (conf : Config) (h : Heap)
    → IsFresh h
    → LeaksNothing h conf (receiver_new grants garbage (some conf) h)
unfolding receiver_new
receiver_new-LeaksNothing grants garbage conf h fresh =
    elim (Bool-cases (config_check (some conf))) [
      | inl valid ↦ rw valid (
          new_module-LeaksNothing grants (rasm_buf_new grants) rasm_buf_init garbage conf h
            (rasm_buf_new-Makes grants) rasm_buf_init-total fresh)
      | inr wrong ↦ rw wrong (inl (h, refl, refl))
    ]
