-- ===== src/Evaluation/Sound/Expression.antt =====
-- `add_expression` returns a source that reads the value of the expression.
use halo2_gpu.Common.{
  ℕ, ◌≡◌, refl, sym, ap, ◌∙◌, subst, subst₂, Bool, true, false, Option, some, List, get_elem?,
  chain_one, chain_two, if◌then◌else◌,
}
use mathlib.Core.Option.{some-injective}
use halo2_gpu.Common.Int.{ℤ}
use halo2_gpu.Field.{Field, ◌⊕◌, ◌⊗◌, ◌=?◌}
use halo2_gpu.Field.Laws.{mul-zero}
use halo2_gpu.Circuit.{Rotation}
use halo2_gpu.Circuit.Expression.{
  GpuExpression, constant, selector, fixed, advice, instance_query, challenge, negated, sum,
  product, scaled,
}
use halo2_gpu.Evaluation.{
  ValueSource, Calculation, GraphEvaluator, add_rotation, add_calculation, add_constant,
}
use halo2_gpu.Evaluation.Build.{
  store_cell, emit_negated, emit_difference, emit_sum, emit_product, add_expression,
}
use halo2_gpu.Evaluation.Run.{Inputs, get, evaluate_calculation, evaluate_simple}
use halo2_gpu.Evaluation.Sound.{
  rows, index_of, read, Valid, Grown, Grown-trans, read-Grown, Outcome, unchanged, add_constant_lem,
  add_rotation_lem, add_calculation_lem,
}
use halo2_gpu.Evaluation.Sound.Emit.{
  emit_negated_lem, emit_difference_lem, emit_sum_lem, emit_product_lem,
}

-- The three arms of a scaled expression.
scaled_cases {ℓ κ} :
    {R : Type ℓ} {P : Type κ} (t u : Bool) (r r' : R) (plain general : Option R)
    → (if t then some r' else if u then plain else general) ≡ some r
    → (t ≡ true → r' ≡ r → P)
    → (u ≡ true → plain ≡ some r → P)
    → (general ≡ some r → P)
    → P
scaled_cases true u r r' plain general h p q s = p refl (some-injective r' r h)
scaled_cases false true r r' plain general h p q s = q refl h
scaled_cases false false r r' plain general h p q s = s h

module _ {ℓ} {F : Type ℓ} ⦃f : Field F⦄ (inputs : Inputs F) (idx : ℕ) (rot_scale : ℤ)
    (isize : ℕ) where
  abbrev Ok : GraphEvaluator F → List F → Type ℓ
  Ok g ints = Valid inputs idx rot_scale isize g ints

  abbrev Gives : GraphEvaluator F → List F → ValueSource × GraphEvaluator F → F → Type ℓ
  Gives g ints r v = Outcome inputs idx rot_scale isize g ints r v

  abbrev Means : GpuExpression F → F → Type ℓ
  Means e v = evaluate_simple inputs idx rot_scale isize e ≡ some v

  pub Outcome-Grown :
      (g : GraphEvaluator F) (ints : List F) (g' : GraphEvaluator F) (ints' : List F)
      (r : ValueSource × GraphEvaluator F) (v : F)
      → Grown inputs idx rot_scale isize g ints g' ints'
      → Gives g' ints' r v
      → Gives g ints r v
  Outcome-Grown g ints g' ints' r v w o = record {
    after = o.after;
    valid = o.valid;
    grown = Grown-trans inputs idx rot_scale isize g ints g' ints' r.1 o.after w o.grown;
    reads = o.reads;
  }

  -- A source that was read before one more step is read after it.
  later :
      (g : GraphEvaluator F) (ints : List F) (a : ValueSource) (x : F)
      (r : ValueSource × GraphEvaluator F) (y : F)
      → read inputs idx rot_scale isize g ints a ≡ some x
      → (o : Gives g ints r y) → read inputs idx rot_scale isize r.1 o.after a ≡ some x
  later g ints a x r y h o = read-Grown inputs idx rot_scale isize g ints r.1 o.after o.grown a x h

  mul_reads :
      (g : GraphEvaluator F) (ints : List F) (a b : ValueSource) (x y : F)
      → read inputs idx rot_scale isize g ints a ≡ some x
      → read inputs idx rot_scale isize g ints b ≡ some y
      → evaluate_calculation (read inputs idx rot_scale isize g ints) (Calculation.mul a b)
        ≡ some (x ⊗ y)
  unfolding evaluate_calculation
  mul_reads g ints a b x y ha hb = rw (ha, hb)

  store_cell_lem :
      (g : GraphEvaluator F) (ints : List F) (r : Rotation) (cell : ℕ → ValueSource) (v : F)
      → Ok g ints
      → ((i : ℕ) (g' : GraphEvaluator F)
          → get_elem? (rows inputs idx rot_scale isize g') i
            ≡ some (index_of inputs idx rot_scale isize r)
          → read inputs idx rot_scale isize g' ints (cell i) ≡ some v)
      → Gives g ints (store_cell cell (add_rotation g r)) v
  unfolding store_cell evaluate_calculation
  store_cell_lem g ints r cell v w reads =
      let t = add_rotation_lem inputs idx rot_scale isize g ints r w in
      Outcome-Grown g ints (add_rotation g r).1 ints _ v t.grown (
        add_calculation_lem inputs idx rot_scale isize (add_rotation g r).1 ints
          (Calculation.store (cell (add_rotation g r).0)) v t.valid tt
          (reads (add_rotation g r).0 (add_rotation g r).1 t.reads))

  -- Two operands in turn, and the arm that joins them.
  joined :
      (g : GraphEvaluator F) (ints : List F) (ra rb r r' : ValueSource × GraphEvaluator F)
      (x y v v' : F)
      → (oa : Gives g ints ra x) → (ob : Gives ra.1 oa.after rb y) → Gives rb.1 ob.after r v
      → r ≡ r'
      → v ≡ v'
      → Gives g ints r' v'
  joined g ints ra rb r r' x y v v' oa ob o p q = subst₂ (Gives g ints) p q (
      Outcome-Grown g ints ra.1 oa.after r v oa.grown
        (Outcome-Grown ra.1 oa.after rb.1 ob.after r v ob.grown o))

  -- From a valid graph, where `add_expression` succeeds and the expression has a value, it leads
  -- to a valid graph in which the returned source reads that value, and every source reads what
  -- it read.
  pub add_expression_lem :
      (e : GpuExpression F) (g : GraphEvaluator F) (ints : List F)
      (r : ValueSource × GraphEvaluator F) (v : F)
      → Ok g ints
      → add_expression e g ≡ some r
      → Means e v
      → Gives g ints r v
  unfolding add_expression evaluate_simple
  add_expression_lem (constant k) g ints r v w h m =
      subst₂ (Gives g ints) (some-injective _ r h) (some-injective k v m)
        (add_constant_lem inputs idx rot_scale isize g ints k w)
  add_expression_lem (selector s) g ints r v w h m = cc
  add_expression_lem (fixed q) g ints r v w h m =
      subst (λ t. Gives g ints t v) (some-injective _ r h)
        (store_cell_lem g ints q.rotation (ValueSource.fixed q.column_index) v w
          (λ i g' at. unfold get in (rw at m)))
  add_expression_lem (advice q) g ints r v w h m =
      subst (λ t. Gives g ints t v) (some-injective _ r h)
        (store_cell_lem g ints q.rotation (ValueSource.advice q.column_index) v w
          (λ i g' at. unfold get in (rw at m)))
  add_expression_lem (instance_query q) g ints r v w h m =
      subst (λ t. Gives g ints t v) (some-injective _ r h)
        (store_cell_lem g ints q.rotation (ValueSource.instance_query q.column_index) v w
          (λ i g' at. unfold get in (rw at m)))
  add_expression_lem (challenge c) g ints r v w h m =
      subst (λ t. Gives g ints t v) (some-injective _ r h)
        (add_calculation_lem inputs idx rot_scale isize g ints
          (Calculation.store (ValueSource.challenge c.index)) v w tt
          (unfold evaluate_calculation get in m))
  add_expression_lem (negated (constant k)) g ints r v w h m =
      subst₂ (Gives g ints) (some-injective _ r h) (some-injective (f.neg k) v m)
        (add_constant_lem inputs idx rot_scale isize g ints (f.neg k) w)
  add_expression_lem (negated a) g ints r v w h m =
      let (ra, ea, p) = chain_one (add_expression a g) (λ ra. emit_negated ra.0 ra.1) r h in
      let (x, ma, q) =
        chain_one (evaluate_simple inputs idx rot_scale isize a) (λ x. f.neg x) v m in
      let oa = add_expression_lem a g ints ra x w ea ma in
      subst₂ (Gives g ints) p q (
        Outcome-Grown g ints ra.1 oa.after _ _ oa.grown
          (emit_negated_lem inputs idx rot_scale isize ra.1 oa.after oa.valid ra.0 x oa.reads))
  add_expression_lem (sum a (negated b)) g ints r v w h m =
      let (ra, rb, ea, eb, p) =
        chain_two (add_expression a g) (λ r. add_expression b r.1)
          (λ ra rb. emit_difference ra.0 rb.0 rb.1) r h in
      let (x, z, ma, mz, q) =
        chain_two (evaluate_simple inputs idx rot_scale isize a)
          (λ _. evaluate_simple inputs idx rot_scale isize (negated b)) (λ x z. x ⊕ z) v m in
      let (y, mb, s) =
        chain_one (evaluate_simple inputs idx rot_scale isize b) (λ x. f.neg x) z mz in
      let oa = add_expression_lem a g ints ra x w ea ma in
      let ob = add_expression_lem b ra.1 oa.after rb y oa.valid eb mb in
      joined g ints ra rb _ r x y _ v oa ob
        (emit_difference_lem inputs idx rot_scale isize rb.1 ob.after ob.valid ra.0 rb.0 x y
          (later ra.1 oa.after ra.0 x rb y oa.reads ob) ob.reads)
        p (ap (λ t. x ⊕ t) s ∙ q)
  add_expression_lem (sum a b) g ints r v w h m =
      let (ra, rb, ea, eb, p) =
        chain_two (add_expression a g) (λ r. add_expression b r.1)
          (λ ra rb. emit_sum ra.0 rb.0 rb.1) r h in
      let (x, y, ma, mb, q) =
        chain_two (evaluate_simple inputs idx rot_scale isize a)
          (λ _. evaluate_simple inputs idx rot_scale isize b) (λ x y. x ⊕ y) v m in
      let oa = add_expression_lem a g ints ra x w ea ma in
      let ob = add_expression_lem b ra.1 oa.after rb y oa.valid eb mb in
      joined g ints ra rb _ r x y _ v oa ob
        (emit_sum_lem inputs idx rot_scale isize rb.1 ob.after ob.valid ra.0 rb.0 x y
          (later ra.1 oa.after ra.0 x rb y oa.reads ob) ob.reads)
        p q
  add_expression_lem (product a b) g ints r v w h m =
      let (ra, rb, ea, eb, p) =
        chain_two (add_expression a g) (λ r. add_expression b r.1)
          (λ ra rb. emit_product ra.0 rb.0 rb.1) r h in
      let (x, y, ma, mb, q) =
        chain_two (evaluate_simple inputs idx rot_scale isize a)
          (λ _. evaluate_simple inputs idx rot_scale isize b) (λ x y. x ⊗ y) v m in
      let oa = add_expression_lem a g ints ra x w ea ma in
      let ob = add_expression_lem b ra.1 oa.after rb y oa.valid eb mb in
      joined g ints ra rb _ r x y _ v oa ob
        (emit_product_lem inputs idx rot_scale isize rb.1 ob.after ob.valid ra.0 rb.0 x y
          (later ra.1 oa.after ra.0 x rb y oa.reads ob) ob.reads)
        p q
  add_expression_lem (scaled a k) g ints r v w h m =
      let (x, ma, e) = chain_one (evaluate_simple inputs idx rot_scale isize a) (λ x. x ⊗ k) v m in
      scaled_cases (k =? f.zero) (k =? f.one) r _ _ _ h
        (λ t p.
          subst₂ (Gives g ints) p
            (sym (mul-zero x) ∙ ap (λ t. x ⊗ t) (sym ((f.beq_iff k f.zero).0 t)) ∙ e)
            (unchanged inputs idx rot_scale isize g ints (ValueSource.constant 0) f.zero w
              (unfold get in w.zero_at)))
        (λ t p.
          subst (Gives g ints r)
            (sym (f.mul-one x) ∙ ap (λ t. x ⊗ t) (sym ((f.beq_iff k f.one).0 t)) ∙ e)
            (add_expression_lem a g ints r x w p ma))
        (λ p.
          let (ra, ea, s) =
            chain_one (add_expression a (add_constant g k).1)
              (λ ra. add_calculation ra.1 (Calculation.mul ra.0 (add_constant g k).0)) r p in
          let ok = add_constant_lem inputs idx rot_scale isize g ints k w in
          let oa = add_expression_lem a (add_constant g k).1 ok.after ra x ok.valid ea ma in
          joined g ints (add_constant g k) ra _ r k x _ v ok oa
            (add_calculation_lem inputs idx rot_scale isize ra.1 oa.after
              (Calculation.mul ra.0 (add_constant g k).0) (x ⊗ k) oa.valid tt
              (mul_reads ra.1 oa.after ra.0 (add_constant g k).0 x k oa.reads
                (later (add_constant g k).1 ok.after (add_constant g k).0 k ra x ok.reads oa)))
            s e)
