-- ===== src/Circuit/CompressSelectors/Reads.antt =====
-- halo2_proofs/src/plonk/circuit/compress_selectors.rs: the column and the expressions that
-- `process` emits for a combination, read at a row.
use halo2_gpu.Common.{
  ℕ, zero, suc, ◌≡◌, ◌≢◌, refl, sym, ap, ◌∙◌, true, false, Option, some, List, [], ◌∷◌, ◌⊎◌, inl,
  inr, ◌<◌, arith, length, subst,
}
use cubical.Cubical.Data.Empty.Base.{⊥*}
use halo2_gpu.Field.{Field, ◌⊕◌, ◌⊗◌}
use halo2_gpu.Field.Laws.{mul_nonzero, mul-zero, zero-mul}
use halo2_gpu.Circuit.Expression.{GpuExpression, contains_simple_selector}
use halo2_gpu.Circuit.Expression.Value.{Row, value}
use halo2_gpu.Circuit.CompressSelectors.{
  SelectorDescription, SelectorAssignment, emit_selectors, assign_rows, zeros,
}
use halo2_gpu.Circuit.CompressSelectors.Group.{AreDisjoint}
use halo2_gpu.Circuit.CompressSelectors.Root.{
  roots, In, IsFresh, factors, factors-own, factors-other, root_product_lem,
}
use halo2_gpu.Circuit.CompressSelectors.Rows.{
  bits, is_active, read, read-assign_rows, length-assign_rows, row_value, Marks, AllDistinct,
  row_value-In, row_value-Marks, AreDisjoint-AtMostOne,
}

length-bits : (i : ℕ) (ss : List SelectorDescription) → length (bits i ss) ≡ length ss
length-bits i [] = refl
length-bits i (s ∷ ss) = ap suc (length-bits i ss)

length-zeros {ℓ} : (F : Type ℓ) ⦃f : Field F⦄ (n : ℕ) → length (zeros {F = F} n) ≡ n
length-zeros F zero = refl
length-zeros F (suc n) = ap suc (length-zeros F n)

module _ {ℓ} {F : Type ℓ} ⦃f : Field F⦄ where
  -- Each expression is zero where its selector is not active, and only there.
  abbrev pub AllRead :
      ℕ → Row F → ℕ → List SelectorDescription → List (SelectorAssignment F) → Type ℓ
  AllRead index r i [] [] = Unit
  AllRead index r i (s ∷ ss) (x ∷ xs) =
      (x.selector ≡ s.selector)
      × (x.combination_index ≡ index)
      × (is_active s.activations i ≡ false → value r x.expression ≡ f.zero)
      × (is_active s.activations i ≡ true → value r x.expression ≢ f.zero)
      × AllRead index r i ss xs
  AllRead index r i _ _ = ⊥*

  module _ (len index : ℕ) (query : GpuExpression F) where
    -- Each assignment names its selector and the combination, and multiplies the query by the
    -- factors of the other roots.
    abbrev Assigned : F → List SelectorDescription → List (SelectorAssignment F) → Type ℓ
    Assigned a [] [] = Unit
    Assigned a (s ∷ ss) (x ∷ xs) =
        (x.selector ≡ s.selector)
        × (x.combination_index ≡ index)
        × ((r : Row F)
            → value r x.expression ≡ value r query ⊗ factors (value r query) a (roots f.one len))
        × Assigned (a ⊕ f.one) ss xs
    Assigned a _ _ = ⊥*

    abbrev Emitted :
        F
        → List F
        → List SelectorDescription
        → Option (List F × List (SelectorAssignment F))
        → Type ℓ
    Emitted a rows ss r =
        (e : List F × List (SelectorAssignment F)) × (r ≡ some e)
        × (length e.0 ≡ length rows)
        × ((i : ℕ) → i < length rows → read e.0 i ≡ row_value a (read rows i) (bits i ss))
        × Assigned a ss e.1

    emit_selectors_lem :
        (a : F) (rows : List F) (ss : List SelectorDescription)
        → contains_simple_selector query ≡ false
        → Emitted a rows ss (emit_selectors len index query a rows ss)
    unfolding emit_selectors
    emit_selectors_lem a rows [] q = ((rows, []), refl, refl, (λ i h. refl), tt)
    emit_selectors_lem a rows (s ∷ ss) q =
        let (e, p, v) = root_product_lem query a f.one len query q in
        let rows' = assign_rows a rows s.activations in
        let n = length-assign_rows a rows s.activations in
        let (l, k, m, h, t) = emit_selectors_lem (a ⊕ f.one) rows' ss q in
        rw (p, k)
          (
            _,
            refl,
            m ∙ n,
            (λ i b.
                h i (omega (arith, n))
                ∙ ap (λ x. row_value (a ⊕ f.one) x (bits i ss))
                    (read-assign_rows a rows s.activations i b)),
            (refl, refl, v, t),
          )

    Assigned-AllRead :
        (a : F) (ss : List SelectorDescription) (xs : List (SelectorAssignment F)) (r : Row F)
        (i : ℕ)
        → (value r query ≡ f.zero) ⊎ In (value r query) (roots f.one len)
        → IsFresh f.zero (roots a (length (bits i ss)))
        → Marks (value r query) a (bits i ss)
        → Assigned a ss xs
        → AllRead index r i ss xs
    Assigned-AllRead a [] [] r i c z m h = tt
    Assigned-AllRead a [] (x ∷ xs) r i c z m h = h
    Assigned-AllRead a (s ∷ ss) [] r i c z m h = h
    Assigned-AllRead a (s ∷ ss) (x ∷ xs) r i c z m h = (
      h.0,
      h.1,
      (λ b. h.2 r ∙ elim c [
        | inl e ↦ rw (e) (zero-mul _)
        | inr j ↦ rw (factors-other (value r query) a (roots f.one len) j (m.1 b)) (mul-zero _)
      ]),
      (λ b p. own (value r query) a (m.0 b) z.0 (sym (h.2 r) ∙ p)),
      Assigned-AllRead (a ⊕ f.one) ss xs r i c z.1 m.2 h.3,
    )
      where
        own : (v a : F) → v ≡ a → f.zero ≢ a → v ⊗ factors v a (roots f.one len) ≢ f.zero
        own v a e ne =
            subst (λ w. w ⊗ factors w a (roots f.one len) ≢ f.zero) (sym e)
              (mul_nonzero a _ (λ p. ne (sym p)) (factors-own a (roots f.one len)))

  read-zeros : (n i : ℕ) → read (zeros {F = F} n) i ≡ f.zero
  read-zeros zero i = refl
  read-zeros (suc n) zero = refl
  read-zeros (suc n) (suc i) = read-zeros n i

  -- The row of the column holds the root of the active selector, or zero.
  column_row :
      (ss : List SelectorDescription) (v : F) (i : ℕ)
      → AreDisjoint ss
      → AllDistinct (f.zero ∷ roots f.one (length ss))
      → v ≡ row_value f.one f.zero (bits i ss)
      → ((v ≡ f.zero) ⊎ In v (roots f.one (length ss)))
        × IsFresh f.zero (roots f.one (length (bits i ss)))
        × Marks v f.one (bits i ss)
  column_row ss v i d u e =
      let u' = subst (λ n. AllDistinct (f.zero ∷ roots f.one n)) (sym (length-bits i ss)) u in
      let c =
        subst
          (λ n.
            (row_value f.one f.zero (bits i ss) ≡ f.zero)
            ⊎ In (row_value f.one f.zero (bits i ss)) (roots f.one n))
          (length-bits i ss) (row_value-In f.one f.zero (bits i ss)) in
      (
        subst (λ x. (x ≡ f.zero) ⊎ In x (roots f.one (length ss))) (sym e) c,
        u'.0,
        subst (λ x. Marks x f.one (bits i ss)) (sym e)
            (row_value-Marks f.one f.zero (bits i ss) (AreDisjoint-AtMostOne i ss d) u'.0 u'.1),
      )

  abbrev pub Gives :
      ℕ
      → ℕ
      → GpuExpression F
      → List SelectorDescription
      → Row F
      → ℕ
      → Option (List F × List (SelectorAssignment F))
      → Type ℓ
  Gives index n query ss r i o =
      (e : List F × List (SelectorAssignment F)) × (o ≡ some e)
      × (length e.0 ≡ n)
      × (value r query ≡ read e.0 i → AllRead index r i ss e.1)

  -- For a combination of disjoint selectors and a query without simple selectors, if 0 and the
  -- roots 1, …, the number of the selectors, are different in the field, the code returns a
  -- column and the assignments, and these are right at a row at which the query reads the column.
  pub emit_selectors-Gives :
      (index n : ℕ) (query : GpuExpression F) (ss : List SelectorDescription) (r : Row F) (i : ℕ)
      → contains_simple_selector query ≡ false
      → AreDisjoint ss
      → AllDistinct (f.zero ∷ roots f.one (length ss))
      → i < n
      → Gives index n query ss r i (emit_selectors (length ss) index query f.one (zeros n) ss)
  emit_selectors-Gives index n query ss r i q d u b =
      let (e, p, l, w, t) = emit_selectors_lem (length ss) index query f.one (zeros n) ss q in
      (
        e,
        p,
        l ∙ length-zeros F n,
        λ h.
            (let v =
                h
                ∙ w i (omega (arith, length-zeros F n))
                ∙ ap (λ x. row_value f.one x (bits i ss)) (read-zeros n i) in
              let (c, z, m) = column_row ss (value r query) i d u v in
              Assigned-AllRead (length ss) index query f.one ss e.1 r i c z m t),
      )
