-- ===== src/Circuit/CompressSelectors/Fit.antt =====
-- halo2_proofs/src/plonk/circuit/compress_selectors.rs: `process` keeps the degree bound.
use halo2_gpu.Common.{
  ℕ, ◌+◌, ◌-◌, ◌==◌, ◌≡◌, refl, Bool, true, false, some, List, [], ◌∷◌, ◌++◌, Bool-cases, inl, inr,
  ◌≤◌, arith, length,
}
use halo2_gpu.Field.{Field}
use halo2_gpu.Circuit.Expression.{GpuExpression, contains_simple_selector, degree}
use halo2_gpu.Circuit.CompressSelectors.{
  SelectorDescription, SelectorAssignment, emit_complex, process,
}
use halo2_gpu.Circuit.CompressSelectors.Group.{count, AllWithin}
use halo2_gpu.Circuit.CompressSelectors.Partition.{combinations_total}
use halo2_gpu.Circuit.CompressSelectors.Columns.{AllAtMost, concat, count-append, count-concat}
use halo2_gpu.Circuit.CompressSelectors.Degrees.{
  is_zero, AllFit, AllFit-append, emit_combinations-AllFit,
}
use halo2_gpu.Circuit.CompressSelectors.Process.{
  complex, is_same, emit_complex-count, emit_complex-AllWithin,
}

none_zero : (n : ℕ) (ss : List SelectorDescription) → AllWithin n ss → count is_zero ss ≡ 0
none_zero n [] w = refl
none_zero n (s ∷ ss) w = ground (arith, none_zero n ss w.2, w.0)

module _ {ℓ} {F : Type ℓ} ⦃f : Field F⦄ where
  emit_complex-AllFit :
      (max_degree : ℕ) (column : ℕ → GpuExpression F) (index : ℕ) (ss : List SelectorDescription)
      → 1 ≤ max_degree
      → ((k : ℕ) → degree (column k) ≤ 1)
      → AllFit max_degree (complex ss) (emit_complex column index ss).1
  unfolding emit_complex
  emit_complex-AllFit m column index [] b l = tt
  emit_complex-AllFit m column index (s ∷ ss) b l = elim (Bool-cases (s.max_degree == 0)) [
    | inl t ↦
        let z : s.max_degree - 1 + degree (column index) ≤ m = ground (arith, l index) in
        rw (t) (refl, z, (λ _. l index), emit_complex-AllFit m column (index + 1) ss b l)
    | inr e ↦ rw (e) (emit_complex-AllFit m column index ss b l)
  ]

  -- If all selectors have as many rows, no degree is above `max_degree`, which is positive, and
  -- the allocated queries have no simple selector and a degree of at most one, the code fails no
  -- assertion, and the assignments are for the given selectors, each once, in some order. When
  -- the expression assigned to a selector takes its place in a gate of the selector's
  -- `max_degree`, the gate's degree is still at most the bound. The expression assigned to a
  -- selector of degree zero is at most linear.
  pub process-degrees :
      (ss : List SelectorDescription) (max_degree : ℕ) (column : ℕ → GpuExpression F)
      → is_same ss ≡ true
      → AllAtMost max_degree ss
      → 1 ≤ max_degree
      → ((k : ℕ) → contains_simple_selector (column k) ≡ false)
      → ((k : ℕ) → degree (column k) ≤ 1)
      → (e : List (List F) × List (SelectorAssignment F)) × (process ss max_degree column ≡ some e)
        × (order : List SelectorDescription) × ((p : SelectorDescription → Bool)
            → count p order ≡ count p ss)
        × AllFit max_degree order e.1
  unfolding process
  process-degrees [] max_degree column n d b q l = (([], []), refl, [], (λ p. refl), tt)
  process-degrees (s ∷ rest) max_degree column n d b q l =
      let ss : List SelectorDescription = s ∷ rest in
      let c = emit_complex column 0 ss in
      let (cs, p, a, m) =
        combinations_total max_degree c.2 (emit_complex-AllWithin column max_degree 0 ss d) in
      let (e, p', g) =
        emit_combinations-AllFit (length s.activations) max_degree column (length c.0) cs q l a (
          omega (
            arith,
            count-concat is_zero cs,
            m is_zero,
            none_zero max_degree c.2 (emit_complex-AllWithin column max_degree 0 ss d),
          )) in
      let returned : process ss max_degree column ≡ some (c.0 ++ e.0, c.1 ++ e.1) = rw (n, p, p') in
      (
        (c.0 ++ e.0, c.1 ++ e.1),
        returned,
        complex ss ++ concat cs,
        (λ t. omega (
          arith,
          count-append t (complex ss) (concat cs),
          count-concat t cs,
          m t,
          emit_complex-count column t 0 ss,
        )),
        AllFit-append max_degree (complex ss) (concat cs) c.1 e.1
            (emit_complex-AllFit max_degree column 0 ss b l) g,
      )
