-- ===== src/Evaluation/Gates.antt =====
-- halo2_proofs/src/plonk/evaluation.rs: the loop of `Evaluator::new_inner` over the gates adds the
-- polynomials of all gates in order.
use halo2_gpu.Common.{◌≡◌, refl, some, List, [], ◌∷◌, ◌++◌, inl, inr, Option-cases, ◌>>=◌}
use halo2_gpu.Field.{Field}
use halo2_gpu.Circuit.Expression.{GpuExpression}
use halo2_gpu.Circuit.System.{GpuGate}
use halo2_gpu.Circuit.System.Compress.{all_polys}
use halo2_gpu.Evaluation.{GraphEvaluator}
use halo2_gpu.Evaluation.Build.{add_expression, add_expressions, add_gates}

module _ {ℓ} {F : Type ℓ} ⦃f : Field F⦄ where
  add_expressions-append :
      (es es' : List (GpuExpression F)) (g : GraphEvaluator F)
      → add_expressions (es ++ es') g ≡ (do
        (vs, g₁) ← add_expressions es g
        (ws, g₂) ← add_expressions es' g₁
        some (vs ++ ws, g₂))
  unfolding add_expressions
  add_expressions-append [] es' g = elim (Option-cases (add_expressions es' g)) [
    | inl p ↦ rw (p)
    | inr (r, p) ↦ rw (p)
  ]
  add_expressions-append (e ∷ es) es' g = elim (Option-cases (add_expression e g)) [
    | inl p ↦ rw (p)
    | inr ((v, g₁), p) ↦
        rw (p, add_expressions-append es es' g₁)
          (elim (Option-cases (add_expressions es g₁)) [
            | inl q ↦ rw (q)
            | inr ((vs, g₂), q) ↦ rw (q) (elim (Option-cases (add_expressions es' g₂)) [
              | inl t ↦ rw (t)
              | inr (r, t) ↦ rw (t)
            ])
          ])
  ]

  pub add_gates-all_polys :
      (gates : List (GpuGate F)) (g : GraphEvaluator F)
      → add_gates gates g ≡ add_expressions (all_polys gates) g
  unfolding add_gates add_expressions
  add_gates-all_polys [] g = refl
  add_gates-all_polys (gate ∷ gates) g =
      rw (add_expressions-append gate.polys (all_polys gates) g)
        (elim (Option-cases (add_expressions gate.polys g)) [
          | inl p ↦ rw (p)
          | inr ((vs, g₁), p) ↦ rw (p, add_gates-all_polys gates g₁)
        ])
