-- ===== src/Evaluation/Compress.antt =====
-- The whole evaluation: a graph built from a list of expressions and closed by a `Horner`
-- evaluates to the Horner fold of the values of the expressions.
use halo2_gpu.Common.{
  ℕ, ◌≡◌, refl, sym, ap, ◌∙◌, subst, subst₂, Option, some, List, [], ◌∷◌, ◌>>=◌, chain_one,
  chain_two,
}
use mathlib.Core.Option.{some-injective}
use halo2_gpu.Common.Int.{ℤ}
use halo2_gpu.Field.{Field, ◌⊕◌, ◌⊗◌}
use halo2_gpu.Circuit.Expression.{GpuExpression}
use halo2_gpu.Circuit.System.{GpuGate}
use halo2_gpu.Circuit.System.Compress.{all_polys}
use halo2_gpu.Evaluation.{ValueSource, Calculation, GraphEvaluator, add_calculation, default_graph}
use halo2_gpu.Evaluation.Build.{
  add_expression, add_expressions, add_gates, for_compress, custom_gates,
}
use halo2_gpu.Evaluation.Gates.{add_gates-all_polys}
use halo2_gpu.Evaluation.Run.{
  Inputs, get, horner_loop, evaluate_calculation, instance_data, evaluate_graph, evaluate_simple,
}
use halo2_gpu.Evaluation.Closed.{find_target-horner, evaluate-closed}
use halo2_gpu.Evaluation.Sound.{
  read, Valid, Grown, Grown-refl, Grown-trans, read-Grown, default-Valid,
}
use halo2_gpu.Evaluation.Sound.Expression.{add_expression_lem}

module _ {ℓ} {F : Type ℓ} ⦃f : Field F⦄ where
  -- `acc * factor + value`, from left to right.
  abbrev pub horner_fold : F → F → List F → F
  horner_fold factor start [] = start
  horner_fold factor start (v ∷ vs) = horner_fold factor (start ⊗ factor ⊕ v) vs

module _ {ℓ} {F : Type ℓ} ⦃f : Field F⦄ (inputs : Inputs F) (idx : ℕ) (rot_scale : ℤ)
    (isize : ℕ) where
  -- The values of expressions by the simple evaluation, and of sources in a graph.
  abbrev pub evaluate_all : List (GpuExpression F) → Option (List F)
  evaluate_all [] = some []
  evaluate_all (e ∷ es) = do
    v ← evaluate_simple inputs idx rot_scale isize e
    vs ← evaluate_all es
    some (v ∷ vs)

  abbrev read_all : GraphEvaluator F → List F → List ValueSource → Option (List F)
  read_all g ints [] = some []
  read_all g ints (s ∷ ss) = do
    v ← read inputs idx rot_scale isize g ints s
    vs ← read_all g ints ss
    some (v ∷ vs)

  record Parts (g : GraphEvaluator F) (ints : List F) (r : List ValueSource × GraphEvaluator F)
      (vs : List F) : Type ℓ where
    after : List F
    valid : Valid inputs idx rot_scale isize r.1 after
    grown : Grown inputs idx rot_scale isize g ints r.1 after
    reads : read_all r.1 after r.0 ≡ some vs

  add_expressions_lem :
      (es : List (GpuExpression F)) (g : GraphEvaluator F) (ints : List F)
      (r : List ValueSource × GraphEvaluator F) (vs : List F)
      → Valid inputs idx rot_scale isize g ints
      → add_expressions es g ≡ some r
      → evaluate_all es ≡ some vs
      → Parts g ints r vs
  unfolding add_expressions
  add_expressions_lem [] g ints r vs w h m =
      subst₂ (Parts g ints) (some-injective _ r h) (some-injective _ vs m) (record {
        after = ints;
        valid = w;
        grown = Grown-refl inputs idx rot_scale isize g ints;
        reads = refl;
      })
  add_expressions_lem (e ∷ es) g ints r vs w h m =
      let (re, rest, he, hs, p) =
        chain_two (add_expression e g) (λ t. add_expressions es t.1) (λ t u. (t.0 ∷ u.0, u.1)) r
          h in
      let (x, xs, me, ms, q) =
        chain_two (evaluate_simple inputs idx rot_scale isize e) (λ _. evaluate_all es)
          (λ x xs. x ∷ xs) vs m in
      let o = add_expression_lem inputs idx rot_scale isize e g ints re x w he me in
      let k = add_expressions_lem es re.1 o.after rest xs o.valid hs ms in
      subst₂ (Parts g ints) p q (record {
        after = k.after;
        valid = k.valid;
        grown =
            Grown-trans inputs idx rot_scale isize g ints re.1 o.after rest.1 k.after o.grown
              k.grown;
        reads = rw (
          read-Grown inputs idx rot_scale isize re.1 o.after rest.1 k.after k.grown re.0 x o.reads,
          k.reads,
        );
      })

  horner_loop-read_all :
      (g : GraphEvaluator F) (ints : List F) (k x : F) (ss : List ValueSource) (vs : List F)
      → read_all g ints ss ≡ some vs
      → horner_loop (read inputs idx rot_scale isize g ints) k ss x ≡ some (horner_fold k x vs)
  horner_loop-read_all g ints k x [] vs h = ap some (ap (horner_fold k x) (some-injective _ vs h))
  horner_loop-read_all g ints k x (s ∷ ss) vs h =
      let (v, us, hv, hs, p) =
        chain_two (read inputs idx rot_scale isize g ints s) (λ _. read_all g ints ss)
          (λ x xs. x ∷ xs) vs h in
      rw hv (horner_loop-read_all g ints k (x ⊗ k ⊕ v) ss us hs ∙ ap some (ap (horner_fold k x) p))

  -- The value of a `Horner` over parts that were read.
  horner_value :
      (g : GraphEvaluator F) (ints : List F) (start factor : ValueSource) (x k : F)
      (ss : List ValueSource) (vs : List F)
      → read inputs idx rot_scale isize g ints start ≡ some x
      → read inputs idx rot_scale isize g ints factor ≡ some k
      → read_all g ints ss ≡ some vs
      → evaluate_calculation
          (read inputs idx rot_scale isize g ints)
          (Calculation.horner start ss factor)
        ≡ some (horner_fold k x vs)
  unfolding evaluate_calculation
  horner_value g ints start factor x k ss vs hx hk hs =
      rw (hk, hx) (horner_loop-read_all g ints k x ss vs hs)

  -- If the graph of the custom gates is built and the simple evaluation gives a value to every
  -- gate's polynomial at a row, the graph evaluated at that row is the previous value folded with
  -- `y` over these values.
  pub evaluate-custom_gates :
      (gates : List (GpuGate F)) (g : GraphEvaluator F) (vs : List F)
      → custom_gates gates ≡ some g
      → evaluate_all (all_polys gates) ≡ some vs
      → evaluate_graph inputs idx rot_scale isize g (instance_data inputs idx rot_scale isize g)
        ≡ some (horner_fold inputs.y inputs.previous_value vs)
  unfolding custom_gates
  evaluate-custom_gates gates g vs h m =
      let (r, hr, p) =
        chain_one (add_gates gates default_graph)
          (λ r.
            (add_calculation r.1
              (Calculation.horner ValueSource.previous_value r.0 ValueSource.y)).1)
          g h in
      let k =
        add_expressions_lem (all_polys gates) default_graph [] r vs
          (default-Valid inputs idx rot_scale isize)
          (sym (add_gates-all_polys gates default_graph) ∙ hr) m in
      subst
        (λ t.
          evaluate_graph inputs idx rot_scale isize t (instance_data inputs idx rot_scale isize t)
          ≡ some (horner_fold inputs.y inputs.previous_value vs))
        p
        (evaluate-closed inputs idx rot_scale isize r.1 k.after _ _ k.valid
          (find_target-horner r.1.calculations _ _ _ k.valid.plain)
          (horner_value r.1 k.after ValueSource.previous_value ValueSource.y inputs.previous_value
            inputs.y r.0 vs (unfold get in refl) (unfold get in refl) k.reads))

  -- If the graph of `for_compress` is built and the simple evaluation gives a value to every
  -- expression at a row, the graph evaluated at that row is the fold from zero of these values,
  -- with the factor that stands for theta.
  pub evaluate-for_compress :
      (es : List (GpuExpression F)) (g : GraphEvaluator F) (vs : List F)
      → for_compress es ≡ some g
      → evaluate_all es ≡ some vs
      → evaluate_graph inputs idx rot_scale isize g (instance_data inputs idx rot_scale isize g)
        ≡ some (horner_fold inputs.y f.zero vs)
  unfolding for_compress
  evaluate-for_compress es g vs h m =
      let (r, hr, p) =
        chain_one (add_expressions es default_graph)
          (λ r.
            (add_calculation r.1 (Calculation.horner (ValueSource.constant 0) r.0 ValueSource.y)).1)
          g h in
      let k =
        add_expressions_lem es default_graph [] r vs (default-Valid inputs idx rot_scale isize) hr
          m in
      subst
        (λ t.
          evaluate_graph inputs idx rot_scale isize t (instance_data inputs idx rot_scale isize t)
          ≡ some (horner_fold inputs.y f.zero vs))
        p
        (evaluate-closed inputs idx rot_scale isize r.1 k.after _ _ k.valid
          (find_target-horner r.1.calculations _ _ _ k.valid.plain)
          (horner_value r.1 k.after (ValueSource.constant 0) ValueSource.y f.zero inputs.y r.0 vs
            (unfold get in k.valid.zero_at) (unfold get in refl) k.reads))
