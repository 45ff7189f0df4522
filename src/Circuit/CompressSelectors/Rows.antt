-- ===== src/Circuit/CompressSelectors/Rows.antt =====
-- halo2_proofs/src/plonk/circuit/compress_selectors.rs: what a row of a combined column holds.
use halo2_gpu.Common.{
  ℕ, zero, suc, ◌≡◌, ◌≢◌, refl, sym, subst, ap, ◌∙◌, Bool, true, false, List, [], ◌∷◌,
  if◌then◌else◌, ◌⊎◌, inl, inr, ◌<◌, arith, length, get_elem?,
}
use halo2_gpu.Field.{Field, ◌⊕◌}
use mathlib.Core.Bool.{true≢false}
use halo2_gpu.Field.Laws.{unwrap_or}
use halo2_gpu.Circuit.CompressSelectors.{SelectorDescription, overlaps, is_excluded, assign_rows}
use halo2_gpu.Circuit.CompressSelectors.Group.{AreDisjoint}
use halo2_gpu.Circuit.CompressSelectors.Root.{roots, In, IsFresh}

-- Is a selector with these activations active on the row?
abbrev pub is_active : List Bool → ℕ → Bool
is_active [] i = false
is_active (b ∷ bs) zero = b
is_active (b ∷ bs) (suc i) = is_active bs i

-- Which of the selectors are active on the row.
abbrev pub bits : ℕ → List SelectorDescription → List Bool
bits i [] = []
bits i (s ∷ ss) = is_active s.activations i ∷ bits i ss

abbrev pub NoneSet : List Bool → Type 0
NoneSet [] = Unit
NoneSet (b ∷ bs) = (b ≡ false) × NoneSet bs

abbrev pub AtMostOne : List Bool → Type 0
AtMostOne [] = Unit
AtMostOne (b ∷ bs) = (b ≡ true → NoneSet bs) × AtMostOne bs

overlaps_inactive :
    (ls rs : List Bool) (i : ℕ)
    → overlaps ls rs ≡ false
    → is_active ls i ≡ true
    → is_active rs i ≡ false
unfolding overlaps
overlaps_inactive [] rs i h k = cc
overlaps_inactive (l ∷ ls) [] i h k = refl
overlaps_inactive (true ∷ ls) (true ∷ rs) i h k = cc
overlaps_inactive (true ∷ ls) (false ∷ rs) zero h k = refl
overlaps_inactive (false ∷ ls) (r ∷ rs) zero h k = cc
overlaps_inactive (true ∷ ls) (false ∷ rs) (suc i) h k = overlaps_inactive ls rs i h k
overlaps_inactive (false ∷ ls) (r ∷ rs) (suc i) h k = overlaps_inactive ls rs i h k

excluded-NoneSet :
    (i : ℕ) (s : SelectorDescription) (ss : List SelectorDescription)
    → is_excluded s ss ≡ false
    → is_active s.activations i ≡ true
    → NoneSet (bits i ss)
unfolding is_excluded
excluded-NoneSet i s [] h k = tt
excluded-NoneSet i s (t ∷ ss) h k = (
  overlaps_inactive s.activations t.activations i (ground arith) k,
  excluded-NoneSet i s ss (ground arith) k,
)

pub AreDisjoint-AtMostOne :
    (i : ℕ) (ss : List SelectorDescription) → AreDisjoint ss → AtMostOne (bits i ss)
AreDisjoint-AtMostOne i [] h = tt
AreDisjoint-AtMostOne i (s ∷ ss) h = (excluded-NoneSet i s ss h.0, AreDisjoint-AtMostOne i ss h.1)

module _ {ℓ} {F : Type ℓ} ⦃f : Field F⦄ where
  abbrev pub read : List F → ℕ → F
  read rows i = unwrap_or (get_elem? rows i) f.zero

  pub read-assign_rows :
      (root : F) (rows : List F) (bs : List Bool) (i : ℕ)
      → i < length rows
      → read (assign_rows root rows bs) i ≡ (if is_active bs i then root else read rows i)
  unfolding assign_rows
  read-assign_rows root [] bs i h = absurd (omega arith)
  read-assign_rows root (c ∷ cs) [] i h = refl
  read-assign_rows root (c ∷ cs) (b ∷ bs) zero h = refl
  read-assign_rows root (c ∷ cs) (b ∷ bs) (suc i) h = read-assign_rows root cs bs i (omega arith)

  pub length-assign_rows :
      (root : F) (rows : List F) (bs : List Bool) → length (assign_rows root rows bs) ≡ length rows
  unfolding assign_rows
  length-assign_rows root [] bs = refl
  length-assign_rows root (c ∷ cs) [] = refl
  length-assign_rows root (c ∷ cs) (b ∷ bs) = ap suc (length-assign_rows root cs bs)

  -- The value of a row with the value `v`, after selectors with the roots from `a` on.
  abbrev pub row_value : F → F → List Bool → F
  row_value a v [] = v
  row_value a v (b ∷ bs) = row_value (a ⊕ f.one) (if b then a else v) bs

  row_value-NoneSet : (a v : F) (bs : List Bool) → NoneSet bs → row_value a v bs ≡ v
  row_value-NoneSet a v [] h = refl
  row_value-NoneSet a v (b ∷ bs) h = rw (h.0) (row_value-NoneSet (a ⊕ f.one) v bs h.1)

  -- The row holds the root of exactly the selectors that are active on it.
  abbrev pub Marks : F → F → List Bool → Type ℓ
  Marks v a [] = Unit
  Marks v a (b ∷ bs) = (b ≡ true → v ≡ a) × (b ≡ false → v ≢ a) × Marks v (a ⊕ f.one) bs

  Marks-NoneSet :
      (v a : F) (bs : List Bool) → NoneSet bs → IsFresh v (roots a (length bs)) → Marks v a bs
  Marks-NoneSet v a [] h k = tt
  Marks-NoneSet v a (b ∷ bs) h k =
      ((λ t. cc (h.0)), (λ _. k.0), Marks-NoneSet v (a ⊕ f.one) bs h.1 k.1)

  pub row_value-In :
      (a v : F) (bs : List Bool)
      → (row_value a v bs ≡ v) ⊎ In (row_value a v bs) (roots a (length bs))
  row_value-In a v [] = inl refl
  row_value-In a v (false ∷ bs) = elim (row_value-In (a ⊕ f.one) v bs) [
    | inl e ↦ inl e
    | inr j ↦ inr (inr j)
  ]
  row_value-In a v (true ∷ bs) = elim (row_value-In (a ⊕ f.one) a bs) [
    | inl e ↦ inr (inl e)
    | inr j ↦ inr (inr j)
  ]

  -- The elements are different from each other.
  abbrev pub AllDistinct : List F → Type ℓ
  AllDistinct [] = Unit
  AllDistinct (x ∷ xs) = IsFresh x xs × AllDistinct xs

  pub IsFresh-In : (v w : F) (xs : List F) → IsFresh v xs → In w xs → w ≢ v
  IsFresh-In v w [] k j e = elim j.lower [ ]
  IsFresh-In v w (x ∷ xs) k j e = elim j [
    | inl p ↦ k.0 (sym e ∙ p)
    | inr q ↦ IsFresh-In v w xs k.1 q e
  ]

  pub row_value-Marks :
      (a v : F) (bs : List Bool)
      → AtMostOne bs
      → IsFresh v (roots a (length bs))
      → AllDistinct (roots a (length bs))
      → Marks (row_value a v bs) a bs
  row_value-Marks a v [] m k d = tt
  row_value-Marks a v (true ∷ bs) m k d =
      subst (λ x. Marks x a (true ∷ bs)) (sym (row_value-NoneSet (a ⊕ f.one) a bs (m.0 refl)))
        ((λ _. refl), (λ t. absurd (true≢false t)), Marks-NoneSet a (a ⊕ f.one) bs (m.0 refl) d.0)
  row_value-Marks a v (false ∷ bs) m k d = (
    (λ t. cc),
    (λ _. elim (row_value-In (a ⊕ f.one) v bs) [
      | inl e ↦ λ p. k.0 (sym e ∙ p)
      | inr j ↦ IsFresh-In a (row_value (a ⊕ f.one) v bs) _ d.0 j
    ]),
    row_value-Marks (a ⊕ f.one) v bs m.1 k.1 d.1,
  )
