-- ===== src/Tests/Memory.antt =====
-- A transmitter for which memory runs out, and a receiver that gets all that it asks for.
use librle.Prelude.{arith, ltb, ◌≡◌, true, false, some, none, refl}
use librle.Alloc.{
  as_transmitter, as_receiver, frag_buf_new, Heap, Module, transmitter_new, receiver_new,
  new_module, rasm_buf_new, cleared,
}
use librle.Alloc.Laws.{LeaksNothing, transmitter_new-LeaksNothing, receiver_new-LeaksNothing}
use librle.RasmBuf.{RasmBuf, rasm_buf_init, rasm_ptrs_set}
use librle.FragBuf.{FragBuf, frag_buf_init}
use librle.Config.{config_check}
use librle.Config.Laws.{config_check-IsValid}
use librle.Transmitter.{Transmitter, encap_ok, encapsulate}
use librle.Link.Delivery.{Delivers}
use librle.Link.Made.{new-Delivers, new-IsConnected}
use librle.Link.Connected.{IsConnected}
use librle.Tests.Linked.{IsValid-config, vlan-IsSendable}
use librle.Tests.Fixtures.{vlan_sdu, config, fresh_frag_buf, fresh_rasm_buf}

abbrev empty_heap : Heap
empty_heap = record { next = 0; live = λ _. false }

transmitter_new-LeaksNothing_example :
    LeaksNothing empty_heap
      (config 0x31 0)
      (transmitter_new (λ n. ltb n 5) (λ _. fresh_frag_buf) (some (config 0x31 0)) empty_heap)
transmitter_new-LeaksNothing_example =
    transmitter_new-LeaksNothing (λ n. ltb n 5) (λ _. fresh_frag_buf) (config 0x31 0) empty_heap
      (λ a _. refl)

receiver_new-LeaksNothing_example :
    LeaksNothing empty_heap
      (config 0x31 0)
      (receiver_new (λ _. true) (λ _. fresh_rasm_buf) (some (config 0x31 0)) empty_heap)
receiver_new-LeaksNothing_example =
    receiver_new-LeaksNothing (λ _. true) (λ _. fresh_rasm_buf) (config 0x31 0) empty_heap
      (λ a _. refl)

checked : config_check (some (config 0x31 0)) ≡ true
checked = (config_check-IsValid (config 0x31 0)).1 IsValid-config

-- With all requests granted the contexts of a transmitter and of a receiver are made.
transmitter_raw :
    (m : Module FragBuf) × (k : Heap) × (new_module
        (λ _. true)
        (frag_buf_new (λ _. true))
        frag_buf_init
        (cleared (λ _. fresh_frag_buf))
        (config 0x31 0)
        empty_heap
      ≡ some (some m, k))
unfolding new_module frag_buf_new frag_buf_init
transmitter_raw = (_, _, refl)

transmitter_made :
    transmitter_new (λ _. true) (λ _. fresh_frag_buf) (some (config 0x31 0)) empty_heap
    ≡ some (some transmitter_raw.0, transmitter_raw.1)
unfolding transmitter_new
transmitter_made = rw checked transmitter_raw.2

receiver_raw :
    (m : Module RasmBuf) × (k : Heap) × (new_module
        (λ _. true)
        (rasm_buf_new (λ _. true))
        rasm_buf_init
        (cleared (λ _. fresh_rasm_buf))
        (config 0x31 0)
        empty_heap
      ≡ some (some m, k))
unfolding new_module rasm_buf_new rasm_buf_init rasm_ptrs_set
receiver_raw = (_, _, refl)

receiver_made :
    receiver_new (λ _. true) (λ _. fresh_rasm_buf) (some (config 0x31 0)) empty_heap
    ≡ some (some receiver_raw.0, receiver_raw.1)
unfolding receiver_new
receiver_made = rw checked receiver_raw.2

new-Delivers_example :
    (u : Transmitter) × (encapsulate (as_transmitter transmitter_raw.0) vlan_sdu 3
      ≡ some (encap_ok, u))
    × Delivers 3 (λ _. 8) 0 u (as_receiver receiver_raw.0) vlan_sdu 3 4096
new-Delivers_example =
    new-Delivers (λ _. true) (λ _. true) (λ _. fresh_frag_buf) (λ _. fresh_rasm_buf) (config 0x31 0)
      empty_heap empty_heap transmitter_raw.1 receiver_raw.1 transmitter_raw.0 receiver_raw.0
      vlan_sdu 3 (λ _. 8) (λ a _. refl) (λ a _. refl) transmitter_made receiver_made IsValid-config
      vlan-IsSendable (omega arith) (λ _. omega arith)

new-IsConnected_example :
    IsConnected (as_transmitter transmitter_raw.0) (as_receiver receiver_raw.0) (λ _. none)
new-IsConnected_example =
    new-IsConnected (λ _. true) (λ _. true) (λ _. fresh_frag_buf) (λ _. fresh_rasm_buf)
      (config 0x31 0) empty_heap empty_heap transmitter_raw.1 receiver_raw.1 transmitter_raw.0
      receiver_raw.0 (λ a _. refl) (λ a _. refl) transmitter_made receiver_made IsValid-config
