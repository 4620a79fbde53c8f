-- ===== src/Alpdu/Filled.antt =====
-- A fragmentation buffer that holds an SDU, and the pieces of `push_alpdu_hdr` (src/header.c) on it.
use mathlib.Core.Path.{ap₂}
use librle.Prelude.{
  ℕ, ◌+◌, ◌-◌, ◌≤◌, ◌<◌, ◌≡◌, some, List, [], ◌++◌, length, take, drop, length-append, length-take,
  length-drop, arith, refl, ◌∙◌, ap, sym, inr, ◌>>=◌,
}
use librle.Prelude.Memory.{
  store, slice, length-slice, slice-add, take-slice, drop-slice, slice-store_disjoint,
  slice-store_self,
}
use librle.FragBuf.{FragBuf, f_buff_len, alpdu_push, sdu_push, write_at, read_at}
use librle.FragBuf.Wf.{IsValid, IsUnsent, left_bytes}
use librle.Alpdu.{omit_vlan_ptype}

-- The buffer holds the SDU `sdu` and no header.
pub record IsFilled (b : FragBuf) (sdu : List ℕ) : Type 0 where
  pub start : 7 ≤ b.sdu.start
  pub same_start : b.alpdu.start ≡ b.sdu.start
  pub same_end : b.alpdu.end ≡ b.sdu.end
  pub cur : b.cur_pos ≡ b.sdu.start
  pub bytes : slice b.buffer b.sdu.start (length sdu) ≡ sdu
  pub len : b.sdu.end ≡ b.sdu.start + length sdu
  pub some_sdu : 0 < length sdu
  pub space : b.sdu.end + 4 ≤ f_buff_len

-- The buffer holds the ALPDU header `hdr` and the SDU `sdu`, and nothing is sent.
pub record IsAlpdu (b : FragBuf) (hdr sdu : List ℕ) : Type 0 where
  pub valid : IsValid b
  pub unsent : IsUnsent b
  pub left : left_bytes b ≡ hdr ++ sdu
  pub hdr_len : length hdr ≡ b.sdu.start - b.alpdu.start

-- What `push_alpdu_hdr` does not touch.
abbrev pub Keeps : FragBuf → FragBuf → Type 0
Keeps b c = (c.sdu_info ≡ b.sdu_info) × (c.crc ≡ b.crc)

pub IsFilled-IsAlpdu : (b : FragBuf) (sdu : List ℕ) → IsFilled b sdu → IsAlpdu b [] sdu
IsFilled-IsAlpdu b sdu v = record {
  valid = record {
    room = omega arith;
    hdr = omega arith;
    used = omega arith;
    trailer = omega arith;
    inside = omega arith;
    sent = omega arith;
    left = omega arith;
  };
  unsent = record { at_start = omega arith; no_trailer = v.same_end; space = v.space };
  left = ap₂ (slice b.buffer) v.cur (omega arith) ∙ v.bytes;
  hdr_len = omega arith;
}

-- A header of at most three bytes in front of the SDU.
pub push_hdr_IsAlpdu :
    (b : FragBuf) (hdr sdu : List ℕ)
    → IsFilled b sdu
    → length hdr ≤ 3
    → (c : FragBuf) × ((alpdu_push b (length hdr) >>= λ d. write_at d d.alpdu.start hdr) ≡ some c)
      × IsAlpdu c hdr sdu
      × Keeps b c
unfolding alpdu_push write_at
push_hdr_IsAlpdu b hdr sdu v short = (
  c,
  ground arith,
  record {
    valid = record {
      room = omega arith;
      hdr = omega arith;
      used = omega arith;
      trailer = omega arith;
      inside = omega arith;
      sent = omega arith;
      left = omega arith;
    };
    unsent = record { at_start = omega arith; no_trailer = v.same_end; space = v.space };
    left = left_bytes_c;
    hdr_len = omega arith;
  },
  (refl, refl),
)
  where
    start : ℕ
    start = b.alpdu.start - length hdr

    c : FragBuf
    c = record b {
      buffer = store b.buffer start hdr;
      alpdu = record { start = start; end = b.alpdu.end };
      ppdu = record { start = start; end = start };
      cur_pos = start;
    }

    left_bytes_c : left_bytes c ≡ hdr ++ sdu
    left_bytes_c =
        ap (slice c.buffer start)
          (let e : b.alpdu.end - start ≡ length hdr + length sdu = omega arith in e)
        ∙ (slice-add c.buffer start (length hdr) (length sdu)
            ∙ ap₂ ◌++◌ (slice-store_self b.buffer start hdr) (
                ap (λ a. slice c.buffer a (length sdu))
                  (let e : start + length hdr ≡ b.sdu.start = omega arith in e)
                ∙ (slice-store_disjoint b.buffer start hdr b.sdu.start (length sdu)
                      (inr (omega arith))
                    ∙ v.bytes)))

-- An SDU without the protocol field of its VLAN header.
abbrev pub without_vlan_ptype : List ℕ → List ℕ
without_vlan_ptype sdu = take 16 sdu ++ drop 18 sdu

pub omit_vlan_ptype-IsFilled :
    (b : FragBuf) (sdu : List ℕ)
    → IsFilled b sdu
    → 18 < length sdu
    → (c : FragBuf) × (omit_vlan_ptype b ≡ some c) × IsFilled c (without_vlan_ptype sdu) × Keeps b c
unfolding omit_vlan_ptype read_at write_at sdu_push
omit_vlan_ptype-IsFilled b sdu v long = (
  c,
  ground (arith, length-slice b.buffer b.sdu.start 16),
  record {
    start = omega arith;
    same_start = omega arith;
    same_end = v.same_end;
    cur = omega arith;
    bytes = kept;
    len = omega (arith, new_length);
    some_sdu = omega (arith, new_length);
    space = v.space;
  },
  (refl, refl),
)
  where
    s : ℕ
    s = b.sdu.start

    c : FragBuf
    c = record b {
      buffer = store b.buffer (s + 2) (slice b.buffer s 16);
      sdu = record { start = s + 2; end = b.sdu.end };
      alpdu = record { start = b.alpdu.start + 2; end = b.alpdu.end };
      ppdu = record { start = b.alpdu.start + 2; end = b.alpdu.start + 2 };
      cur_pos = b.alpdu.start + 2;
    }

    new_length : length (without_vlan_ptype sdu) + 2 ≡ length sdu
    new_length =
        omega
          (arith, length-append (take 16 sdu) (drop 18 sdu), length-take 16 sdu, length-drop 18 sdu)

    front : slice c.buffer (s + 2) 16 ≡ take 16 sdu
    front =
        ap (slice c.buffer (s + 2)) (sym (length-slice b.buffer s 16))
        ∙ (slice-store_self b.buffer (s + 2) (slice b.buffer s 16)
            ∙ (sym (take-slice b.buffer s 16 (length sdu) (omega arith)) ∙ ap (take 16) v.bytes))

    back : slice c.buffer (s + 2 + 16) (length sdu - 18) ≡ drop 18 sdu
    back =
        slice-store_disjoint b.buffer (s + 2) (slice b.buffer s 16) (s + 2 + 16) (length sdu - 18)
          (inr (omega (arith, length-slice b.buffer s 16)))
        ∙ (ap (λ a. slice b.buffer a (length sdu - 18))
              (let e : s + 2 + 16 ≡ s + 18 = omega arith in e)
            ∙ (sym (drop-slice b.buffer s 18 (length sdu) (omega arith)) ∙ ap (drop 18) v.bytes))

    kept : slice c.buffer (s + 2) (length (without_vlan_ptype sdu)) ≡ without_vlan_ptype sdu
    kept =
        ap (slice c.buffer (s + 2)) (
          let e : length (without_vlan_ptype sdu) ≡ 16 + (length sdu - 18) =
            omega (arith, new_length) in
          e)
        ∙ (slice-add c.buffer (s + 2) 16 (length sdu - 18) ∙ ap₂ ◌++◌ front back)
