-- ===== src/Link/Made.antt =====
-- A transmitter and a receiver that `rle_transmitter_new` and `rle_receiver_new` have made
-- (src/rle_transmitter.c, src/rle_receiver.c).
use librle.Prelude.{
  ℕ, Bool, ◌≤◌, ◌<◌, ◌≡◌, true, some, none, ap, sym, subst, ◌∙◌, inl, inr, arith, refl, Option,
}
use librle.Prelude.Tables.{passes, passes-at}
use librle.Constants.{Sdu}
use librle.Config.{Config}
use librle.Config.Laws as ConfigLaws
use librle.Ctx.{is_free}
use librle.FragBuf.{FragBuf}
use librle.RasmBuf.{RasmBuf}
use librle.Alloc.{Heap, Module, transmitter_new, receiver_new, as_transmitter, as_receiver}
use librle.Alloc.Blocks.{IsFresh}
use librle.Alloc.Loops.{IsReady}
use librle.Alloc.Laws.{LeaksNothing, transmitter_new-LeaksNothing, receiver_new-LeaksNothing}
use librle.Transmitter.{Transmitter, encap_ok, encapsulate}
use librle.Link.Fresh.{IsSendable}
use librle.Link.Delivery.{Delivers, encapsulate-Delivers}
use librle.Link.Connected.{IsConnected}

some_made : {B : Type 0} {p q : Option (Module B) × Heap} → some p ≡ some q → p.0 ≡ q.0
some_made {B} {p} {q} h = let e : p ≡ q = cc in ap (λ (x : Option (Module B) × Heap). x.0) e

some_module : {B : Type 0} {m n : Module B} → some m ≡ some n → m ≡ n
some_module h = cc

-- A module that is made has the configuration, and contexts that are ready.
made :
    {B : Type 0} (h k : Heap) (conf : Config) (m : Module B) (r : Option (Option (Module B) × Heap))
    → LeaksNothing h conf r
    → r ≡ some (some m, k)
    → (m.conf ≡ conf) × ((j : ℕ) → j < 8 → IsReady j (m.slots j))
made h k conf m r (inl (q, e, _)) f = absurd (let g : none ≡ some m = some_made (sym e ∙ f) in cc)
made {B} h k conf m r (inr (n, q, z, e, _, _, same, ready)) f =
    let g : n ≡ m = some_module (some_made (sym e ∙ f)) in
    (
      ap (λ (x : Module B). x.conf) (sym g) ∙ same,
      subst (λ (x : Module B). (j : ℕ) → j < 8 → IsReady j (x.slots j)) g ready,
    )

all_free : (i : ℕ) → i < 8 → is_free 0 i ≡ true
unfolding is_free passes
all_free i small = passes-at 8 (λ j. is_free 0 j) i refl small

-- A transmitter and a receiver that are made with the same valid configuration deliver an SDU that
-- the receiver can restore, in each of the eight contexts: `rle_encapsulate` returns OK, and
-- `rle_fragment`, asked for PPDUs of 8 bytes or more each time, and the receiver come to an end in
-- which the receiver returns exactly the SDU, after less than 4096 PPDUs without one, and both
-- contexts are free. Neither heap has a block with the number of a later request.
pub new-Delivers :
    (grants_t grants_r : ℕ → Bool) (garbage_t : ℕ → FragBuf) (garbage_r : ℕ → RasmBuf)
    (conf : Config) (h_t h_r k_t k_r : Heap) (t : Module FragBuf) (r : Module RasmBuf) (s : Sdu)
    (i : ℕ) (burst : ℕ → ℕ)
    → IsFresh h_t
    → IsFresh h_r
    → transmitter_new grants_t garbage_t (some conf) h_t ≡ some (some t, k_t)
    → receiver_new grants_r garbage_r (some conf) h_r ≡ some (some r, k_r)
    → ConfigLaws.IsValid conf
    → IsSendable conf s
    → i < 8
    → ((j : ℕ) → 8 ≤ burst j)
    → (u : Transmitter) × (encapsulate (as_transmitter t) s i ≡ some (encap_ok, u))
      × Delivers i burst 0 u (as_receiver r) s i 4096
new-Delivers grants_t grants_r garbage_t garbage_r conf h_t h_r k_t k_r t r s i burst fresh_t
      fresh_r new_t new_r valid ok hi big =
    let (conf_t, ready_t) =
      made h_t k_t conf t _ (transmitter_new-LeaksNothing grants_t garbage_t conf h_t fresh_t)
        new_t in
    let (conf_r, ready_r) =
      made h_r k_r conf r _ (receiver_new-LeaksNothing grants_r garbage_r conf h_r fresh_r) new_r in
    let id : (t.slots i).ctx.frag_id ≡ i = (ready_t i hi).frag_id in
    let (u, begun, ends) =
      encapsulate-Delivers (as_transmitter t) (as_receiver r) s i burst hi
        (subst (λ x. x < 8) (sym id) hi) (omega arith) (all_free i hi)
        (subst ConfigLaws.IsValid (sym conf_t) valid) (subst (λ c. IsSendable c s) (sym conf_t) ok)
        (conf_r ∙ sym conf_t) (omega arith)
        (subst (λ x. is_free 0 x ≡ true) (sym id) (all_free i hi)) (λ _. inl refl) big in
    (u, begun, subst (λ x. Delivers i burst 0 u (as_receiver r) s x 4096) id ends)

-- A transmitter and a receiver that are made with the same valid configuration are connected, with
-- nothing on its way. Neither heap has a block with the number of a later request.
pub new-IsConnected :
    (grants_t grants_r : ℕ → Bool) (garbage_t : ℕ → FragBuf) (garbage_r : ℕ → RasmBuf)
    (conf : Config) (h_t h_r k_t k_r : Heap) (t : Module FragBuf) (r : Module RasmBuf)
    → IsFresh h_t
    → IsFresh h_r
    → transmitter_new grants_t garbage_t (some conf) h_t ≡ some (some t, k_t)
    → receiver_new grants_r garbage_r (some conf) h_r ≡ some (some r, k_r)
    → ConfigLaws.IsValid conf
    → IsConnected (as_transmitter t) (as_receiver r) (λ _. none)
new-IsConnected grants_t grants_r garbage_t garbage_r conf h_t h_r k_t k_r t r fresh_t fresh_r new_t
      new_r valid =
    let (conf_t, ready_t) =
      made h_t k_t conf t _ (transmitter_new-LeaksNothing grants_t garbage_t conf h_t fresh_t)
        new_t in
    let (conf_r, _) =
      made h_r k_r conf r _ (receiver_new-LeaksNothing grants_r garbage_r conf h_r fresh_r) new_r in
    record {
      valid = subst ConfigLaws.IsValid (sym conf_t) valid;
      conf = conf_r ∙ sym conf_t;
      map_t = omega arith;
      map_r = omega arith;
      id = λ i hi. (ready_t i hi).frag_id;
      each = λ i hi. (all_free i hi, all_free i hi, λ _. inl refl);
    }
