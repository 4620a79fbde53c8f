-- ===== src/Alloc.antt =====
-- The memory of a transmitter and a receiver: rle_frag_buf_new and _del of
-- src/fragmentation_buffer.c, rasm_buf_new and _del of src/reassembly_buffer.h, the contexts of
-- src/rle_ctx.c, and the _new and _destroy functions of src/rle_transmitter.c and
-- src/rle_receiver.c. A block is known by the number of the request that it answers; which requests
-- `malloc` grants is a parameter. Freeing a block that is not there is a fault.
pub mod Blocks
pub mod Makes
pub mod Loops
pub mod Laws
use librle.Prelude.{
  ℕ, zero, suc, ◌+◌, Bool, true, false, not, if◌then◌else◌, Option, none, some, List, [], ◌∷◌,
  set_at, assert, ◌>>=◌, ◌>>◌,
}
use librle.Config.{Config, config_check}
use librle.Ctx.{RleCtx, LinkStatus, flush, set_seq_nb}
use librle.FragBuf.{FragBuf, frag_buf_init}
use librle.RasmBuf.{RasmBuf, rasm_buf_init}
use librle.Transmitter.{Transmitter}
use librle.Receiver.{Receiver}

-- The number of the next request, and the blocks that are allocated.
pub record Heap : Type 0 where
  pub next : ℕ
  pub live : ℕ → Bool

-- `malloc`, NULL if the request is not granted.
unfoldable pub malloc : (ℕ → Bool) → Heap → Option ℕ × Heap
malloc grants h =
    if grants h.next
    then (some h.next, record { next = suc h.next; live = set_at h.live h.next true })
    else (none, record h { next = suc h.next })

-- `free` of a pointer that is not NULL.
unfoldable pub free : Heap → ℕ → Option Heap
free h a = do assert (h.live a); some (record h { live = set_at h.live a false })

-- The blocks behind a pointer freed one after another.
unfoldable pub free_all : Heap → List ℕ → Option Heap
unfolding free
free_all h [] = some h
free_all h (a ∷ blocks) = do h ← free h a; free_all h blocks

-- `rle_frag_buf_new`: the blocks that the pointer leads to, in the order in which they are freed.
unfoldable pub frag_buf_new : (ℕ → Bool) → Heap → Option (Option (List ℕ) × Heap)
unfolding malloc
frag_buf_new grants h =
    let (p, h) = malloc grants h in some (elim p [ none ↦ none | some a ↦ some (a ∷ []) ], h)

-- The answer to the second request of `rasm_buf_new`, for the bytes; where it is NULL, the structure
-- `a` is freed again.
unfoldable pub rasm_bytes : ℕ → Option ℕ × Heap → Option (Option (List ℕ) × Heap)
unfolding free
rasm_bytes a (none, h) = do h ← free h a; some (none, h)
rasm_bytes a (some b, h) = some (some (b ∷ a ∷ []), h)

-- The answer to the first, for the structure.
unfoldable pub rasm_struct : (ℕ → Bool) → Option ℕ × Heap → Option (Option (List ℕ) × Heap)
unfolding malloc rasm_bytes
rasm_struct grants (none, h) = some (none, h)
rasm_struct grants (some a, h) = rasm_bytes a (malloc grants h)

-- `rasm_buf_new`; `rasm_buf_del` frees the bytes first.
unfoldable pub rasm_buf_new : (ℕ → Bool) → Heap → Option (Option (List ℕ) × Heap)
unfolding malloc rasm_struct
rasm_buf_new grants h = rasm_struct grants (malloc grants h)

-- A context with its buffer; `buff` is NULL or leads to the blocks.
pub record Slot (B : Type 0) : Type 0 where
  pub buff : Option (List ℕ)
  pub content : B
  pub ctx : RleCtx

-- `rle_ctx_init_frag_buf` and `rle_ctx_init_rasm_buf`, which differ in the functions that make and
-- set up the buffer: whether the status is C_OK, the context, and the heap.
unfoldable pub init_buf :
    {B : Type 0}
    → (Heap → Option (Option (List ℕ) × Heap))
    → (B → Option B)
    → Slot B
    → Heap
    → Option (Bool × Slot B × Heap)
init_buf make init s h = do
  (p, h) ← make h
  elim p [
    | none ↦ some (false, record s { buff = none }, h)
    | some blocks ↦ do
      b ← init s.content
      some (true, record { buff = some blocks; content = b; ctx = flush s.ctx }, h)
  ]

-- The loop of the _new functions over `n` contexts from context `i` on.
unfoldable pub init_ctxs :
    {B : Type 0}
    → (Heap → Option (Option (List ℕ) × Heap))
    → (B → Option B)
    → ℕ
    → ℕ
    → (ℕ → Slot B)
    → Heap
    → Option (Bool × (ℕ → Slot B) × Heap)
unfolding init_buf
init_ctxs make init zero i slots h = some (true, slots, h)
init_ctxs make init (suc n) i slots h = do
  (ok, s, h) ← init_buf make init (slots i) h
  elim ok [
    | false ↦ some (false, set_at slots i s, h)
    | true ↦
        init_ctxs make init n (suc i)
          (set_at slots i (record s { ctx = set_seq_nb (record s.ctx { frag_id = i }) 0 })) h
  ]

-- `rle_ctx_destroy_frag_buf` and `rle_ctx_destroy_rasm_buf`, which assert that there is a buffer; the
-- error path of the _new functions, where `must` does not hold, passes over a context without one.
unfoldable pub destroy_buf : Bool → Option (List ℕ) → Heap → Option Heap
unfolding free_all
destroy_buf must none h = do assert (not must); some h
destroy_buf must (some blocks) h = free_all h blocks

-- The loop over the contexts of the _destroy functions and of that error path.
unfoldable pub destroy_ctxs : {B : Type 0} → Bool → ℕ → ℕ → (ℕ → Slot B) → Heap → Option Heap
unfolding destroy_buf
destroy_ctxs must zero i slots h = some h
destroy_ctxs must (suc n) i slots h = do
  h ← destroy_buf must (slots i).buff h
  destroy_ctxs must n (suc i) slots h

-- A transmitter or receiver in memory: its own block, its contexts, and its configuration.
pub record Module (B : Type 0) : Type 0 where
  pub self : ℕ
  pub slots : ℕ → Slot B
  pub conf : Config

-- The end of the _new functions: whether the contexts could be set up, the contexts and the heap.
unfoldable pub finish_module :
    {B : Type 0} → Config → ℕ → Bool × (ℕ → Slot B) × Heap → Option (Option (Module B) × Heap)
unfolding destroy_ctxs free
finish_module conf self (true, slots, h) =
    some (some (record { self = self; slots = slots; conf = conf }), h)
finish_module conf self (false, slots, h) = do
  h ← destroy_ctxs false 8 0 slots h
  h ← free h self
  some (none, h)

-- The answer to the request for the module itself.
unfoldable pub fill_module :
    {B : Type 0}
    → (Heap → Option (Option (List ℕ) × Heap))
    → (B → Option B)
    → (ℕ → Slot B)
    → Config
    → Option ℕ × Heap
    → Option (Option (Module B) × Heap)
unfolding init_ctxs finish_module
fill_module make init cleared conf (none, h) = some (none, h)
fill_module make init cleared conf (some self, h) =
    init_ctxs make init 8 0 cleared h >>= finish_module conf self

-- What `rle_transmitter_new` and `rle_receiver_new` do once the configuration is accepted.
unfoldable pub new_module :
    {B : Type 0}
    → (ℕ → Bool)
    → (Heap → Option (Option (List ℕ) × Heap))
    → (B → Option B)
    → (ℕ → Slot B)
    → Config
    → Heap
    → Option (Option (Module B) × Heap)
unfolding malloc fill_module
new_module grants make init cleared conf h = fill_module make init cleared conf (malloc grants h)

-- The contexts after `memset`; what a new buffer holds before it is set up is arbitrary.
abbrev pub cleared : {B : Type 0} → (ℕ → B) → ℕ → Slot B
cleared garbage i = record {
  buff = none;
  content = garbage i;
  ctx = record {
    frag_id = 0;
    next_seq_nb = 0;
    use_crc = false;
    current_counter = 0;
    lk_status = record {
      counter_in = 0;
      counter_ok = 0;
      counter_dropped = 0;
      counter_lost = 0;
      counter_bytes_in = 0;
      counter_bytes_ok = 0;
      counter_bytes_dropped = 0;
    };
  };
}

-- `rle_transmitter_new`; `none` in the place of the configuration is the NULL pointer.
unfoldable pub transmitter_new :
    (ℕ → Bool) → (ℕ → FragBuf) → Option Config → Heap → Option (Option (Module FragBuf) × Heap)
transmitter_new grants garbage none h = some (none, h)
transmitter_new grants garbage (some conf) h =
    if not (config_check (some conf))
    then some (none, h)
    else new_module grants (frag_buf_new grants) frag_buf_init (cleared garbage) conf h

-- `rle_receiver_new`
unfoldable pub receiver_new :
    (ℕ → Bool) → (ℕ → RasmBuf) → Option Config → Heap → Option (Option (Module RasmBuf) × Heap)
receiver_new grants garbage none h = some (none, h)
receiver_new grants garbage (some conf) h =
    if not (config_check (some conf))
    then some (none, h)
    else new_module grants (rasm_buf_new grants) rasm_buf_init (cleared garbage) conf h

-- `rle_transmitter_destroy` and `rle_receiver_destroy` of a pointer to a module.
unfoldable pub destroy : {B : Type 0} → Module B → Heap → Option Heap
unfolding destroy_ctxs free
destroy m h = do h ← destroy_ctxs true 8 0 m.slots h; free h m.self

-- The transmitter that such a module is.
abbrev pub as_transmitter : Module FragBuf → Transmitter
as_transmitter m = record {
  rle_ctx_man = λ i. (m.slots i).ctx;
  frag_bufs = λ i. (m.slots i).content;
  conf = m.conf;
  free_ctx = 0;
}

-- The receiver that such a module is.
abbrev pub as_receiver : Module RasmBuf → Receiver
as_receiver m = record {
  rle_ctx_man = λ i. (m.slots i).ctx;
  rasm_bufs = λ i. (m.slots i).content;
  is_ctx_seqnum_init = λ i. false;
  conf = m.conf;
  free_ctx = 0;
}

-- `rle_transmitter_destroy`; `none` is a NULL pointer.
unfoldable pub transmitter_destroy : Option (Module FragBuf) → Heap → Option Heap
unfolding destroy
transmitter_destroy none h = some h
transmitter_destroy (some m) h = destroy m h

-- `rle_receiver_destroy`
unfoldable pub receiver_destroy : Option (Module RasmBuf) → Heap → Option Heap
unfolding destroy
receiver_destroy none h = some h
receiver_destroy (some m) h = destroy m h
