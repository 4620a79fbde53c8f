-- ===== src/Ctx/Map.antt =====
-- The bit map of free contexts (src/rle_ctx.h) after one context is taken or given back, with all
-- that is known of the result.
use librle.Prelude.{ℕ, ◌<◌, ◌≡◌, true, false, some, ◌==◌, if◌then◌else◌, arith, ap, sym, ◌∙◌}
use librle.Ctx.{is_free, set_nonfree, set_free}
use librle.Ctx.Laws.{is_free-set_nonfree, is_free-set_free}

some-eq : {x y : ℕ} → some x ≡ some y → x ≡ y
some-eq h = cc

-- The map with context `i` in use.
abbrev pub UsedMap : ℕ → ℕ → Type 0
UsedMap c i =
    (d : ℕ) × (set_nonfree c i ≡ some d)
    × (d < 256)
    × ((j : ℕ) → j < 8 → is_free d j ≡ (if j == i then false else is_free c j))

set_nonfree-lt : (c i d : ℕ) → set_nonfree c i ≡ some d → d < 256
unfolding set_nonfree
set_nonfree-lt c i d h = ground arith

pub used_map : (c i : ℕ) → c < 256 → i < 8 → UsedMap c i
used_map c i hc hi = (
  m.0,
  m.1,
  set_nonfree-lt c i m.0 m.1,
  λ j hj.
      let n = is_free-set_nonfree c i j hc hi hj in
      ap (λ d. is_free d j) (some-eq (sym m.1 ∙ n.1)) ∙ n.2,
)
  where
    m :
        (d : ℕ) × (set_nonfree c i ≡ some d)
        × (is_free d i ≡ (if i == i then false else is_free c i))
    m = is_free-set_nonfree c i i hc hi hi

-- The map with context `i` free.
abbrev pub FreedMap : ℕ → ℕ → Type 0
FreedMap c i =
    (d : ℕ) × (set_free c i ≡ some d)
    × (d < 256)
    × ((j : ℕ) → j < 8 → is_free d j ≡ (if j == i then true else is_free c j))

set_free-lt : (c i d : ℕ) → set_free c i ≡ some d → d < 256
unfolding set_free
set_free-lt c i d h = ground arith

pub freed_map : (c i : ℕ) → c < 256 → i < 8 → FreedMap c i
freed_map c i hc hi =
    let m = is_free-set_free c i i hc hi hi in
    (
      m.0,
      m.1,
      set_free-lt c i m.0 m.1,
      λ j hj.
          let n = is_free-set_free c i j hc hi hj in
          ap (λ d. is_free d j) (some-eq (sym m.1 ∙ n.1)) ∙ n.2,
    )
