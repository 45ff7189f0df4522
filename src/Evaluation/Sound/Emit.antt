-- ===== src/Evaluation/Sound/Emit.antt =====
-- The arms of `add_expression`: the simplifications on zero, one and two, and the ordering of
-- the operands, keep the value.
use halo2_gpu.Common.{
  ℕ, ◌≡◌, refl, sym, ap, ap₂, ◌∙◌, Bool, true, false, ◌||◌, some, List, get_elem?, if◌then◌else◌,
  inl, inr, ◌⊎◌, arith,
}
use mathlib.Core.Option.{some-injective}
use halo2_gpu.Common.Int.{ℤ}
use halo2_gpu.Field.{Field, ◌⊕◌, ◌⊖◌, ◌⊗◌}
use halo2_gpu.Field.Laws.{zero-add, one-mul, zero-mul, mul-zero, neg-zero, add-mul}
use halo2_gpu.Evaluation.{
  ValueSource, Calculation, GraphEvaluator, source_eq, source_le, add_calculation,
}
use halo2_gpu.Evaluation.Build.{is_constant, emit_negated, emit_difference, emit_sum, emit_product}
use halo2_gpu.Evaluation.Compare.{source_eq_sound}
use halo2_gpu.Evaluation.Run.{Inputs, get, evaluate_calculation}
use halo2_gpu.Evaluation.Sound.{IsPlain, read, Valid, Outcome, unchanged, add_calculation_lem}

module _ {ℓ} {F : Type ℓ} ⦃f : Field F⦄ (inputs : Inputs F) (idx : ℕ) (rot_scale : ℤ) (isize : ℕ)
    (g : GraphEvaluator F) (ints : List F) (w : Valid inputs idx rot_scale isize g ints) where
  abbrev Reads : ValueSource → F → Type ℓ
  Reads s v = read inputs idx rot_scale isize g ints s ≡ some v

  abbrev Gives : ValueSource × GraphEvaluator F → F → Type ℓ
  Gives r v = Outcome inputs idx rot_scale isize g ints r v

  branch :
      (test : Bool) (r s : ValueSource × GraphEvaluator F) (v : F)
      → (test ≡ true → Gives r v)
      → (test ≡ false → Gives s v)
      → Gives (if test then r else s) v
  branch true r s v p q = p refl
  branch false r s v p q = q refl

  -- The sources `Constant(0)`, `Constant(1)` and `Constant(2)` read zero, one and two.
  constant_value :
      (i : ℕ) (k : F) (a : ValueSource) (x : F)
      → get_elem? g.constants i ≡ some k
      → is_constant i a ≡ true
      → Reads a x
      → x ≡ k
  unfolding get
  constant_value i k a x at same h = some-injective x k (
      sym h
      ∙ ap (read inputs idx rot_scale isize g ints)
          (source_eq_sound a (ValueSource.constant i) same)
      ∙ at)

  keep : (s : ValueSource) (x v : F) → x ≡ v → Reads s x → Gives (s, g) v
  keep s x v e h = unchanged inputs idx rot_scale isize g ints s v w (h ∙ ap some e)

  binary :
      (c : Calculation) (x v : F)
      → IsPlain c
      → x ≡ v
      → evaluate_calculation (read inputs idx rot_scale isize g ints) c ≡ some x
      → Gives (add_calculation g c) v
  binary c x v p e h = add_calculation_lem inputs idx rot_scale isize g ints c v w p (h ∙ ap some e)

  pub emit_negated_lem : (a : ValueSource) (x : F) → Reads a x → Gives (emit_negated a g) (f.neg x)
  unfolding emit_negated evaluate_calculation
  emit_negated_lem a x ha =
      branch (is_constant 0 a) _ _ _
        (λ t.
          let z : x ≡ f.zero = constant_value 0 f.zero a x w.zero_at t ha in
          keep a x (f.neg x) (z ∙ sym neg-zero ∙ ap f.neg (sym z)) ha)
        (λ _. binary (Calculation.negate a) (f.neg x) (f.neg x) tt refl (rw ha))

  pub emit_difference_lem :
      (a b : ValueSource) (x y : F)
      → Reads a x
      → Reads b y
      → Gives (emit_difference a b g) (x ⊕ f.neg y)
  unfolding emit_difference evaluate_calculation
  emit_difference_lem a b x y ha hb =
      branch (is_constant 0 a) _ _ _
        (λ t.
          let z : x ≡ f.zero = constant_value 0 f.zero a x w.zero_at t ha in
          binary (Calculation.negate b) (f.neg y) _ tt
            (sym (ap (λ t. t ⊕ f.neg y) z ∙ zero-add (f.neg y))) (rw hb))
        (λ _.
          branch (is_constant 0 b) _ _ _
            (λ t.
              let z : y ≡ f.zero = constant_value 0 f.zero b y w.zero_at t hb in
              keep a x _ (sym (ap (λ t. x ⊕ f.neg t) z ∙ ap (λ t. x ⊕ t) neg-zero ∙ f.add-zero x))
                ha)
            (λ _. binary (Calculation.sub a b) (x ⊖ y) _ tt (f.sub-eq x y) (rw (ha, hb))))

  pub emit_sum_lem :
      (a b : ValueSource) (x y : F) → Reads a x → Reads b y → Gives (emit_sum a b g) (x ⊕ y)
  unfolding emit_sum evaluate_calculation
  emit_sum_lem a b x y ha hb =
      branch (is_constant 0 a) _ _ _
        (λ t.
          let z : x ≡ f.zero = constant_value 0 f.zero a x w.zero_at t ha in
          keep b y _ (sym (ap (λ t. t ⊕ y) z ∙ zero-add y)) hb)
        (λ _.
          branch (is_constant 0 b) _ _ _
            (λ t.
              let z : y ≡ f.zero = constant_value 0 f.zero b y w.zero_at t hb in
              keep a x _ (sym (ap (λ t. x ⊕ t) z ∙ f.add-zero x)) ha)
            (λ _.
              branch (source_le a b) _ _ _
                (λ _. binary (Calculation.add a b) (x ⊕ y) _ tt refl (rw (ha, hb)))
                (λ _. binary (Calculation.add b a) (y ⊕ x) _ tt (f.add_comm y x) (rw (ha, hb)))))

  two_mul : (x : F) → (f.one ⊕ f.one) ⊗ x ≡ f.double x
  two_mul x = add-mul f.one f.one x ∙ ap₂ f.add (one-mul x) (one-mul x) ∙ sym (f.double-eq x)

  -- The last three arms of a product, where neither operand is zero, one or two.
  general_product :
      (a b : ValueSource) (x y : F)
      → Reads a x
      → Reads b y
      → Gives
          (if source_eq a b
            then add_calculation g (Calculation.square a)
            else if source_le a b
            then add_calculation g (Calculation.mul a b)
            else add_calculation g (Calculation.mul b a))
          (x ⊗ y)
  unfolding evaluate_calculation
  general_product a b x y ha hb =
      branch (source_eq a b) _ _ _
        (λ t.
          let same : x ≡ y =
            some-injective x y
              (sym ha ∙ ap (read inputs idx rot_scale isize g ints) (source_eq_sound a b t) ∙ hb) in
          binary (Calculation.square a) (f.square x) _ tt (f.square-eq x ∙ ap (λ t. x ⊗ t) same)
            (rw ha))
        (λ _.
          branch (source_le a b) _ _ _
            (λ _. binary (Calculation.mul a b) (x ⊗ y) _ tt refl (rw (ha, hb)))
            (λ _. binary (Calculation.mul b a) (y ⊗ x) _ tt (f.mul_comm y x) (rw (ha, hb))))

  -- The arms on one and two, where neither operand is zero.
  unit_product :
      (a b : ValueSource) (x y : F)
      → Reads a x
      → Reads b y
      → Gives
          (if is_constant 1 a
            then (b, g)
            else if is_constant 1 b
            then (a, g)
            else if is_constant 2 a
            then add_calculation g (Calculation.double b)
            else if is_constant 2 b
            then add_calculation g (Calculation.double a)
            else if source_eq a b
            then add_calculation g (Calculation.square a)
            else if source_le a b
            then add_calculation g (Calculation.mul a b)
            else add_calculation g (Calculation.mul b a))
          (x ⊗ y)
  unfolding evaluate_calculation
  unit_product a b x y ha hb =
      branch (is_constant 1 a) _ _ _
        (λ t.
          keep b y _ (sym (ap (λ t. t ⊗ y) (constant_value 1 f.one a x w.one_at t ha) ∙ one-mul y))
            hb)
        (λ _.
          branch (is_constant 1 b) _ _ _
            (λ t.
              keep a x _
                (sym (ap (λ t. x ⊗ t) (constant_value 1 f.one b y w.one_at t hb) ∙ f.mul-one x)) ha)
            (λ _.
              branch (is_constant 2 a) _ _ _
                (λ t.
                  binary (Calculation.double b) (f.double y) _ tt
                    (sym (ap (λ t. t ⊗ y) (constant_value 2 _ a x w.two_at t ha) ∙ two_mul y))
                    (rw hb))
                (λ _.
                  branch (is_constant 2 b) _ _ _
                    (λ t.
                      binary (Calculation.double a) (f.double x) _ tt
                        (sym (
                          f.mul_comm x y
                          ∙ ap (λ t. t ⊗ x) (constant_value 2 _ b y w.two_at t hb)
                          ∙ two_mul x))
                        (rw ha))
                    (λ _. general_product a b x y ha hb))))

  pub emit_product_lem :
      (a b : ValueSource) (x y : F) → Reads a x → Reads b y → Gives (emit_product a b g) (x ⊗ y)
  unfolding emit_product get
  emit_product_lem a b x y ha hb =
      branch (is_constant 0 a || is_constant 0 b) _ _ _
        (λ t. keep (ValueSource.constant 0) f.zero _ (sym (vanishes (either _ _ t))) w.zero_at)
        (λ _. unit_product a b x y ha hb)
    where
      either : (p q : Bool) → (p || q) ≡ true → (p ≡ true) ⊎ (q ≡ true)
      either p q h = ground arith

      vanishes : (is_constant 0 a ≡ true) ⊎ (is_constant 0 b ≡ true) → x ⊗ y ≡ f.zero
      vanishes (inl t) = ap (λ t. t ⊗ y) (constant_value 0 f.zero a x w.zero_at t ha) ∙ zero-mul y
      vanishes (inr t) = ap (λ t. x ⊗ t) (constant_value 0 f.zero b y w.zero_at t hb) ∙ mul-zero x
