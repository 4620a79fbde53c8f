-- ===== src/Extract/Layout.antt =====
-- The extraction functions of src/header.c on what `push_alpdu_hdr` of the same file builds.
use librle.Prelude.{
  get_elem?, ℕ, ◌+◌, ◌<◌, ◌≡◌, ◌⊎◌, inl, inr, Bool, true, false, Option, none, some, List, ◌++◌,
  length, arith, refl, ap, sym, ◌∙◌, subst, ◌>>=◌, ◌==◌, if◌then◌else◌, >>=-eq-some,
}
use librle.Constants.{fallback}
use librle.Config.{Config}
use librle.Header.{is_signal}
use librle.Ptype.{get_alpdu_label_type}
use librle.Alpdu.{ptype_is_omissible, be16_bytes}
use librle.Alpdu.Layout.{Layout, layout, omitted_layout, compressed_layout}
use librle.Extract.{uncomp_alpdu_extract, comp_alpdu_extract, alpdu_extract}
use librle.Extract.Found.{Rebuilds, found, chosen, Finds, uncomp-be16, compressed-Finds}
use librle.Extract.Omitted.{
  suppressed_extract, IsHonest, omitted_layout-Finds, omitted_layout-empty, compressed_layout-some,
}

-- Which of three results a computation with two tests gave.
by_tests :
    (omitted plain : Bool) (c : Option ℕ) (x y : Layout) (f : ℕ → Layout) (l : Layout)
    → (if omitted then some x else if plain then some y else (c >>= λ n. some (f n))) ≡ some l
    → ((omitted ≡ true) × (l ≡ x))
      ⊎ ((plain ≡ true) × (l ≡ y))
      ⊎ ((plain ≡ false) × (n : ℕ) × (c ≡ some n) × (l ≡ f n))
by_tests true plain c x y f l h = inl (refl, cc)
by_tests false true c x y f l h = inr (inl (refl, cc))
by_tests false false none x y f l h = cc
by_tests false false (some n) x y f l h = inr (inr (refl, n, refl, cc))

-- The three ways to a layout.
pub layout-cases :
    (conf : Config) (ptype : ℕ) (sdu : List ℕ) (l : Layout)
    → layout conf ptype sdu ≡ some l
    → ((ptype_is_omissible ptype conf sdu (length sdu) ≡ some true)
        × (l ≡ omitted_layout conf ptype sdu))
      ⊎ (((conf.use_compressed_ptype == 0) ≡ true) × (l ≡ (be16_bytes ptype, sdu)))
      ⊎ (((conf.use_compressed_ptype == 0) ≡ false)
          × (c : ℕ) × (chosen ptype sdu ≡ some c)
          × (l ≡ compressed_layout ptype c sdu))
unfolding layout
layout-cases conf ptype sdu l h =
    let (omitted, e, rest) = >>=-eq-some (ptype_is_omissible ptype conf sdu (length sdu)) _ h in
    elim (by_tests omitted (conf.use_compressed_ptype == 0) (chosen ptype sdu)
      (omitted_layout conf ptype sdu) (be16_bytes ptype, sdu) (λ c. compressed_layout ptype c sdu) l
      rest) [ inl (on, same) ↦ inl (e ∙ ap some on, same) | inr other ↦ inr other ]

-- The extraction that the receiver does for a layout finds its protocol type.
abbrev Locates : Config → ℕ → ℕ → ℕ → List ℕ → List ℕ → Layout → Type 0
Locates conf ptype size k sdu tail l =
    Finds
      (alpdu_extract (length l.0 == 0)
        (is_signal (get_alpdu_label_type ptype (length l.0 == 0) size)) conf)
      ptype sdu l k tail

extract_suppressed :
    (conf : Config) (ptype k : ℕ) (signal : Bool) (sdu tail : List ℕ) (l : Layout)
    → Finds (suppressed_extract signal conf) ptype sdu l k tail
    → Finds (alpdu_extract true signal conf) ptype sdu l k tail
unfolding alpdu_extract
extract_suppressed conf ptype k signal sdu tail l h = h

extract_uncompressed :
    (conf : Config) (ptype k : ℕ) (signal : Bool) (sdu tail : List ℕ) (l : Layout)
    → (conf.use_compressed_ptype == 0) ≡ true
    → Finds uncomp_alpdu_extract ptype sdu l k tail
    → Finds (alpdu_extract false signal conf) ptype sdu l k tail
unfolding alpdu_extract
extract_uncompressed conf ptype k signal sdu tail l e h = rw e h

extract_compressed :
    (conf : Config) (ptype k : ℕ) (signal : Bool) (sdu tail : List ℕ) (l : Layout)
    → (conf.use_compressed_ptype == 0) ≡ false
    → Finds comp_alpdu_extract ptype sdu l k tail
    → Finds (alpdu_extract false signal conf) ptype sdu l k tail
unfolding alpdu_extract
extract_compressed conf ptype k signal sdu tail l e h = rw e h

Locates-by :
    (conf : Config) (ptype size k : ℕ) (sdu tail : List ℕ) (l : Layout) (suppressed : Bool)
    → (length l.0 == 0) ≡ suppressed
    → Finds
        (alpdu_extract suppressed (is_signal (get_alpdu_label_type ptype suppressed size)) conf)
        ptype
        sdu
        l
        k
        tail
    → Locates conf ptype size k sdu tail l
Locates-by conf ptype size k sdu tail l suppressed e h =
    subst
      (λ b.
        Finds (alpdu_extract b (is_signal (get_alpdu_label_type ptype b size)) conf) ptype sdu l k
          tail)
      (sym e) h

uncompressed-Finds :
    (ptype k : ℕ) (sdu tail : List ℕ)
    → ptype < 65536
    → k < 65536
    → Finds uncomp_alpdu_extract ptype sdu (be16_bytes ptype, sdu) k tail
uncompressed-Finds ptype k sdu tail small short =
    (fallback, uncomp-be16 ptype k tail small short, inl ((λ e. cc), refl))

layout-Locates :
    (conf : Config) (ptype size k : ℕ) (sdu tail : List ℕ) (l : Layout)
    → layout conf ptype sdu ≡ some l
    → ptype < 65536
    → IsHonest conf ptype sdu
    → 0 < k
    → k < 65536
    → get_elem? tail 0 ≡ get_elem? l.1 0
    → Locates conf ptype size k sdu tail l
layout-Locates conf ptype size k sdu tail l h small honest pos short first =
    elim (layout-cases conf ptype sdu l h) [
      | inl (omitted, same) ↦ subst (Locates conf ptype size k sdu tail) (sym same) (
          Locates-by conf ptype size k sdu tail (omitted_layout conf ptype sdu) true
            (ap (λ b. length b == 0) (omitted_layout-empty conf ptype sdu))
            (extract_suppressed conf ptype k _ sdu tail (omitted_layout conf ptype sdu) (
              omitted_layout-Finds conf ptype size k sdu tail omitted honest pos
                (first ∙ ap (λ (m : Layout). get_elem? m.1 0) same))))
      | inr (inl (plain, same)) ↦ subst (Locates conf ptype size k sdu tail) (sym same) (
          Locates-by conf ptype size k sdu tail (be16_bytes ptype, sdu) false refl
            (extract_uncompressed conf ptype k _ sdu tail (be16_bytes ptype, sdu) plain
              (uncompressed-Finds ptype k sdu tail small short)))
      | inr (inr (comp, c, chose, same)) ↦ subst (Locates conf ptype size k sdu tail) (sym same) (
          Locates-by conf ptype size k sdu tail (compressed_layout ptype c sdu) false
            (ground (arith, compressed_layout-some ptype c sdu))
            (extract_compressed conf ptype k _ sdu tail (compressed_layout ptype c sdu) comp
              (compressed-Finds ptype c k sdu tail chose small short)))
    ]

-- Behind the header that `push_alpdu_hdr` writes, with `k > 0` bytes `tail` of the SDU that starts as
-- the rest of the ALPDU does, the receiver finds the protocol type and the `k` bytes, and the compressed
-- value says how the rest was made of the SDU.
pub alpdu_extract-layout :
    (conf : Config) (ptype size k : ℕ) (sdu tail : List ℕ) (l : Layout)
    → layout conf ptype sdu ≡ some l
    → ptype < 65536
    → IsHonest conf ptype sdu
    → 0 < k
    → k < 65536
    → get_elem? tail 0 ≡ get_elem? l.1 0
    → (comp_ptype : ℕ) × (alpdu_extract
          (length l.0 == 0)
          (is_signal (get_alpdu_label_type ptype (length l.0 == 0) size))
          conf
          (l.0 ++ tail)
          (length l.0 + k)
        ≡ some (found ptype comp_ptype tail k (length l.0)))
      × Rebuilds comp_ptype ptype sdu l.1
alpdu_extract-layout conf ptype size k sdu tail l h small honest pos short first =
    layout-Locates conf ptype size k sdu tail l h small honest pos short first
