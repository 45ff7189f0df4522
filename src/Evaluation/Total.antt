-- ===== src/Evaluation/Total.antt =====
-- halo2_proofs/src/plonk/evaluation.rs: building a graph from expressions whose selectors were
-- replaced, and running it.
use halo2_gpu.Common.{
  ◌≡◌, refl, Bool, true, false, Option, some, List, [], ◌∷◌, map, ℕ, if◌then◌else◌, ◌>>=◌,
}
use halo2_gpu.Field.{Field, ◌=?◌}
use halo2_gpu.Circuit.Expression.{
  GpuExpression, constant, selector, fixed, advice, instance_query, challenge, negated, sum,
  product, scaled,
}
use halo2_gpu.Circuit.Expression.Replace.{IsConcrete, AllConcrete}
use halo2_gpu.Circuit.Expression.Value.{value}
use halo2_gpu.Circuit.System.{GpuGate}
use halo2_gpu.Circuit.System.Compress.{all_polys}
use halo2_gpu.Circuit.System.Valid.{AllOf}
use halo2_gpu.Common.Int.{ℤ}
use halo2_gpu.Evaluation.{
  ValueSource, Calculation, GraphEvaluator, default_graph, add_constant, add_calculation,
}
use halo2_gpu.Evaluation.Build.{
  emit_negated, emit_difference, emit_sum, emit_product, add_expression, add_expressions, add_gates,
  custom_gates, for_compress,
}
use halo2_gpu.Evaluation.Gates.{add_gates-all_polys}
use halo2_gpu.Evaluation.Run.{Inputs, instance_data, evaluate_graph}
use halo2_gpu.Evaluation.Compress.{horner_fold, evaluate-custom_gates, evaluate-for_compress}
use halo2_gpu.Evaluation.Readable.{
  IsReadable, HasSize, readable-AllConcrete, row_at, evaluate_all-value,
}

scaled_total {ℓ} :
    {R : Type ℓ} (t u : Bool) (r : R) (plain general : Option R)
    → (a : R) × (plain ≡ some a)
    → (b : R) × (general ≡ some b)
    → (c : R) × ((if t then some r else if u then plain else general) ≡ some c)
scaled_total true u r plain general p q = (r, refl)
scaled_total false true r plain general p q = p
scaled_total false false r plain general p q = q

one_total {ℓ κ} :
    {A : Type ℓ} {B : Type κ} (m : Option A) (k : A → B)
    → (a : A) × (m ≡ some a)
    → (b : B) × ((m >>= λ r. some (k r)) ≡ some b)
one_total m k (a, e) = (k a, rw e)

two_total {ℓ κ} :
    {A : Type ℓ} {B : Type κ} (m : Option A) (n : A → Option A) (k : A → A → B)
    → (a : A) × (m ≡ some a)
    → ((a : A) → (b : A) × (n a ≡ some b))
    → (c : B) × ((m >>= λ r. n r >>= λ s. some (k r s)) ≡ some c)
two_total m n k (a, e) h = let (b, p) = h a in (k a b, rw (e, p))

module _ {ℓ} {F : Type ℓ} ⦃f : Field F⦄ where
  pub add_expression_total :
      (e : GpuExpression F) (g : GraphEvaluator F)
      → IsConcrete e
      → (r : ValueSource × GraphEvaluator F) × (add_expression e g ≡ some r)
  unfolding add_expression
  add_expression_total (constant k) g c = (_, refl)
  add_expression_total (selector s) g c = elim c [ ]
  add_expression_total (fixed q) g c = (_, refl)
  add_expression_total (advice q) g c = (_, refl)
  add_expression_total (instance_query q) g c = (_, refl)
  add_expression_total (challenge q) g c = (_, refl)
  add_expression_total (negated (constant k)) g c = (_, refl)
  add_expression_total (negated a) g c =
      one_total (add_expression a g) (λ ra. emit_negated ra.0 ra.1) (add_expression_total a g c)
  add_expression_total (sum a (negated b)) g c =
      two_total (add_expression a g) (λ r. add_expression b r.1)
        (λ ra rb. emit_difference ra.0 rb.0 rb.1) (add_expression_total a g c.0)
        (λ r. add_expression_total b r.1 c.1)
  add_expression_total (sum a b) g c =
      two_total (add_expression a g) (λ r. add_expression b r.1) (λ ra rb. emit_sum ra.0 rb.0 rb.1)
        (add_expression_total a g c.0) (λ r. add_expression_total b r.1 c.1)
  add_expression_total (product a b) g c =
      two_total (add_expression a g) (λ r. add_expression b r.1)
        (λ ra rb. emit_product ra.0 rb.0 rb.1) (add_expression_total a g c.0)
        (λ r. add_expression_total b r.1 c.1)
  add_expression_total (scaled a k) g c =
      scaled_total (k =? f.zero) (k =? f.one) _ _ _ (add_expression_total a g c) (
        one_total (add_expression a (add_constant g k).1)
          (λ ra. add_calculation ra.1 (Calculation.mul ra.0 (add_constant g k).0))
          (add_expression_total a (add_constant g k).1 c))

  add_expressions_total :
      (es : List (GpuExpression F)) (g : GraphEvaluator F)
      → AllConcrete es
      → (r : List ValueSource × GraphEvaluator F) × (add_expressions es g ≡ some r)
  unfolding add_expressions
  add_expressions_total [] g c = (([], g), refl)
  add_expressions_total (e ∷ es) g c =
      let (re, he) = add_expression_total e g c.0 in
      let (rs, hs) = add_expressions_total es re.1 c.1 in ((re.0 ∷ rs.0, rs.1), rw (he, hs))

  pub custom_gates_built :
      (gates : List (GpuGate F))
      → AllConcrete (all_polys gates)
      → (g : GraphEvaluator F) × (custom_gates gates ≡ some g)
  unfolding custom_gates
  custom_gates_built gates c = one_total (add_gates gates default_graph) _ (
      rw (add_gates-all_polys gates default_graph)
        (add_expressions_total (all_polys gates) default_graph c))

  pub for_compress_built :
      (es : List (GpuExpression F))
      → AllConcrete es
      → (g : GraphEvaluator F) × (for_compress es ≡ some g)
  unfolding for_compress
  for_compress_built es c =
      one_total (add_expressions es default_graph) _ (add_expressions_total es default_graph c)

  module _ (inputs : Inputs F) (idx : ℕ) (rot_scale : ℤ) (isize : ℕ) where
    -- What a graph evaluates to at the index `idx`, from its own new data.
    abbrev pub run : GraphEvaluator F → Option F
    run g = evaluate_graph inputs idx rot_scale isize g (instance_data inputs idx rot_scale isize g)

    -- If all columns have the size, which is not zero, and the gates have no selector and only
    -- columns and challenges that exist, then the graph of the custom gates is built, and at every
    -- index it evaluates without a panic to the fold with y, from the previous value, of the
    -- values of the gates' polynomials in order.
    pub custom_gates_total :
        (gates : List (GpuGate F))
        → HasSize inputs isize
        → AllOf (IsReadable inputs) (all_polys gates)
        → (g : GraphEvaluator F) × (custom_gates gates ≡ some g)
          × (run g
              ≡ some (
                  horner_fold inputs.y inputs.previous_value
                    (map (value (row_at inputs idx rot_scale isize)) (all_polys gates))))
    custom_gates_total gates size readable =
        let (g, built) =
          custom_gates_built gates (readable-AllConcrete inputs (all_polys gates) readable) in
        (
          g,
          built,
          evaluate-custom_gates inputs idx rot_scale isize gates g _ built
              (evaluate_all-value inputs idx rot_scale isize size (all_polys gates) readable),
        )

    -- If all columns have the size, which is not zero, and the expressions have no selector and
    -- only columns and challenges that exist, then the graph of `for_compress` is built, and at
    -- every index it evaluates without a panic to the fold, from zero, of the expressions' values
    -- in order, with the factor that stands for theta.
    pub for_compress_total :
        (es : List (GpuExpression F))
        → HasSize inputs isize
        → AllOf (IsReadable inputs) es
        → (g : GraphEvaluator F) × (for_compress es ≡ some g)
          × (run g
              ≡ some (
                  horner_fold inputs.y f.zero (map (value (row_at inputs idx rot_scale isize)) es)))
    for_compress_total es size readable =
        let (g, built) = for_compress_built es (readable-AllConcrete inputs es readable) in
        (
          g,
          built,
          evaluate-for_compress inputs idx rot_scale isize es g _ built
              (evaluate_all-value inputs idx rot_scale isize size es readable),
        )
