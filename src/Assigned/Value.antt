-- ===== src/Assigned/Value.antt =====
-- Evaluation of a `GpuAssigned<F>` commutes with every operation: the fractions compute what the
-- field does.
use halo2_gpu.Common.{◌≡◌, refl, sym, ap, ap₂, ◌∙◌, ◌≢◌, inl, inr, Bool-cases}
use halo2_gpu.Field.{Field, ◌⊕◌, ◌⊖◌, ◌⊗◌, ◌=?◌}
use halo2_gpu.Field.Laws.{
  inv_or_zero, inv-one, inv-zero, inv-mul, mul-inv, mul-zero, zero-mul, zero-add, one-mul, add-mul,
  neg-mul, neg-zero, mul_interchange, zero-cases, =?_false,
}
use halo2_gpu.Assigned.{
  GpuAssigned, zero, trivial, rational, neg, add, add_field, sub, sub_field, mul, mul_field, double,
  square, cube, evaluate,
}

module _ {ℓ} {F : Type ℓ} ⦃f : Field F⦄ where
  -- The fraction n/d, with x/0 = 0.
  abbrev pub ratio : F → F → F
  ratio n d = n ⊗ inv_or_zero d

  pub evaluate-rational : (n d : F) → evaluate (rational n d) ≡ ratio n d
  unfolding evaluate
  evaluate-rational n d = elim (Bool-cases (d =? f.one)) [
    | inl t ↦
        rw t
          (sym (ap (λ t. n ⊗ t) (ap inv_or_zero ((f.beq_iff d f.one).0 t) ∙ inv-one) ∙ f.mul-one n))
    | inr e ↦ rw e
  ]

  pub evaluate-rational_zero : (n : F) → evaluate (rational n f.zero) ≡ f.zero
  evaluate-rational_zero n = evaluate-rational n f.zero ∙ ap (λ t. n ⊗ t) inv-zero ∙ mul-zero n

  ratio_trivial : (n d y : F) → d ≢ f.zero → ratio (n ⊕ d ⊗ y) d ≡ ratio n d ⊕ y
  ratio_trivial n d y ne =
      add-mul n (d ⊗ y) (inv_or_zero d)
      ∙ ap (λ t. ratio n d ⊕ t)
          (ap (λ t. t ⊗ inv_or_zero d) (f.mul_comm d y)
            ∙ f.mul_assoc y d (inv_or_zero d)
            ∙ ap (λ t. y ⊗ t) (mul-inv d ne)
            ∙ f.mul-one y)

  ratio-mul : (n d n' d' : F) → ratio (n ⊗ n') (d ⊗ d') ≡ ratio n d ⊗ ratio n' d'
  ratio-mul n d n' d' =
      ap (λ t. (n ⊗ n') ⊗ t) (inv-mul d d') ∙ mul_interchange n n' (inv_or_zero d) (inv_or_zero d')

  ratio_self : (d x : F) → d ≢ f.zero → ratio d d ⊗ x ≡ x
  ratio_self d x ne = ap (λ t. t ⊗ x) (mul-inv d ne) ∙ one-mul x

  ratio-add :
      (n d n' d' : F)
      → d ≢ f.zero
      → d' ≢ f.zero
      → ratio (n ⊗ d' ⊕ d ⊗ n') (d ⊗ d') ≡ ratio n d ⊕ ratio n' d'
  ratio-add n d n' d' ne ne' =
      add-mul (n ⊗ d') (d ⊗ n') (inv_or_zero (d ⊗ d'))
      ∙ ap₂ (λ s t. s ⊕ t)
          (ratio-mul n d d' d'
            ∙ f.mul_comm (ratio n d) (ratio d' d')
            ∙ ratio_self d' (ratio n d) ne')
          (ratio-mul d d n' d' ∙ ratio_self d (ratio n' d') ne)

  pub ratio_scale : (n y d : F) → ratio (n ⊗ y) d ≡ ratio n d ⊗ y
  ratio_scale n y d =
      f.mul_assoc n y (inv_or_zero d)
      ∙ ap (λ t. n ⊗ t) (f.mul_comm y (inv_or_zero d))
      ∙ sym (f.mul_assoc n (inv_or_zero d) y)

  doubled : (x : GpuAssigned F) → evaluate (double x) ≡ evaluate x ⊕ evaluate x
  doubled zero = unfold double evaluate in sym (f.add-zero f.zero)
  doubled (trivial x) = unfold double evaluate in f.double-eq x
  doubled (rational n d) =
      unfold double in
      evaluate-rational (f.double n) d
      ∙ ap (λ t. ratio t d) (f.double-eq n)
      ∙ add-mul n n (inv_or_zero d)
      ∙ ap₂ (λ s t. s ⊕ t) (sym (evaluate-rational n d)) (sym (evaluate-rational n d))

  squared : (x : GpuAssigned F) → evaluate (square x) ≡ evaluate x ⊗ evaluate x
  squared zero = unfold square evaluate in sym (mul-zero f.zero)
  squared (trivial x) = unfold square evaluate in f.square-eq x
  squared (rational n d) =
      unfold square in
      evaluate-rational (f.square n) (f.square d)
      ∙ ap₂ ratio (f.square-eq n) (f.square-eq d)
      ∙ ratio-mul n d n d
      ∙ ap₂ (λ s t. s ⊗ t) (sym (evaluate-rational n d)) (sym (evaluate-rational n d))

  add_rational_trivial :
      (n d y : F) → evaluate (add (rational n d) (trivial y)) ≡ evaluate (rational n d) ⊕ y
  unfolding add
  add_rational_trivial n d y = elim (zero-cases d) [
    | inl e ↦
        rw ((f.beq_iff d f.zero).1 e, e)
          (unfold evaluate in sym (ap (λ t. t ⊕ y) (evaluate-rational_zero n) ∙ zero-add y))
    | inr ne ↦ rw (=?_false d f.zero ne) (
        evaluate-rational (n ⊕ d ⊗ y) d
        ∙ ratio_trivial n d y ne
        ∙ ap (λ t. t ⊕ y) (sym (evaluate-rational n d)))
  ]

  add_rational_rational :
      (n d n' d' : F)
      → evaluate (add (rational n d) (rational n' d'))
        ≡ evaluate (rational n d) ⊕ evaluate (rational n' d')
  unfolding add
  add_rational_rational n d n' d' = elim (zero-cases d) [
    | inl e ↦
        rw ((f.beq_iff d f.zero).1 e, e)
          (sym (ap (λ t. t ⊕ evaluate (rational n' d')) (evaluate-rational_zero n) ∙ zero-add _))
    | inr ne ↦ elim (zero-cases d') [
      | inl e' ↦
          rw (=?_false d f.zero ne, (f.beq_iff d' f.zero).1 e', e')
            (sym (ap (λ t. evaluate (rational n d) ⊕ t) (evaluate-rational_zero n') ∙ f.add-zero _))
      | inr ne' ↦
          rw (=?_false d f.zero ne, =?_false d' f.zero ne')
            (evaluate-rational (n ⊗ d' ⊕ d ⊗ n') (d ⊗ d')
              ∙ ratio-add n d n' d' ne ne'
              ∙ ap₂ (λ s t. s ⊕ t) (sym (evaluate-rational n d)) (sym (evaluate-rational n' d')))
    ]
  ]

  add_trivial_rational :
      (x n d : F) → evaluate (add (trivial x) (rational n d)) ≡ x ⊕ evaluate (rational n d)
  add_trivial_rational x n d = flip ∙ add_rational_trivial n d x ∙ f.add_comm _ x
    where
      flip : evaluate (add (trivial x) (rational n d)) ≡ evaluate (add (rational n d) (trivial x))
      flip = unfold add in refl

  -- The sum of two assigned values evaluates to the sum of their values, whatever the variants
  -- and also where a denominator is zero.
  pub evaluate-add : (x y : GpuAssigned F) → evaluate (add x y) ≡ evaluate x ⊕ evaluate y
  evaluate-add zero y = unfold add evaluate in sym (zero-add (evaluate y))
  evaluate-add (trivial x) zero = unfold add evaluate in sym (f.add-zero x)
  evaluate-add (rational n d) zero = unfold add evaluate in sym (f.add-zero _)
  evaluate-add (trivial x) (trivial y) = unfold add evaluate in refl
  evaluate-add (rational n d) (trivial y) = unfold evaluate in add_rational_trivial n d y
  evaluate-add (trivial x) (rational n d) = unfold evaluate in add_trivial_rational x n d
  evaluate-add (rational n d) (rational n' d') = add_rational_rational n d n' d'

  pub evaluate-neg : (x : GpuAssigned F) → evaluate (neg x) ≡ f.neg (evaluate x)
  evaluate-neg zero = unfold neg evaluate in sym neg-zero
  evaluate-neg (trivial x) = unfold neg evaluate in refl
  evaluate-neg (rational n d) =
      unfold neg in
      evaluate-rational (f.neg n) d
      ∙ neg-mul n (inv_or_zero d)
      ∙ ap f.neg (sym (evaluate-rational n d))

  -- Differences, and the mixed forms with a field element on the right.
  pub evaluate-sub :
      (x y : GpuAssigned F) (r : F)
      → (evaluate (sub x y) ≡ evaluate x ⊖ evaluate y)
        × (evaluate (add_field x r) ≡ evaluate x ⊕ r)
        × (evaluate (sub_field x r) ≡ evaluate x ⊖ r)
  unfolding sub add_field sub_field
  evaluate-sub x y r = (
    evaluate-add x (neg y)
        ∙ ap (λ t. evaluate x ⊕ t) (evaluate-neg y)
        ∙ sym (f.sub-eq (evaluate x) (evaluate y)),
    evaluate-add x (trivial r) ∙ unfold evaluate in refl,
    evaluate-add x (trivial (f.neg r)) ∙ unfold evaluate in sym (f.sub-eq (evaluate x) r),
  )

  -- The product of two assigned values evaluates to the product of their values.
  pub evaluate-mul : (x y : GpuAssigned F) → evaluate (mul x y) ≡ evaluate x ⊗ evaluate y
  evaluate-mul zero y = unfold mul evaluate in sym (zero-mul (evaluate y))
  evaluate-mul (trivial x) zero = unfold mul evaluate in sym (mul-zero x)
  evaluate-mul (rational n d) zero = unfold mul evaluate in sym (mul-zero _)
  evaluate-mul (trivial x) (trivial y) = unfold mul evaluate in refl
  evaluate-mul (rational n d) (trivial y) =
      unfold mul in
      evaluate-rational (n ⊗ y) d
      ∙ ratio_scale n y d
      ∙ ap (λ t. t ⊗ y) (sym (evaluate-rational n d))
      ∙ unfold evaluate in refl
  evaluate-mul (trivial x) (rational n d) =
      unfold mul in
      evaluate-rational (n ⊗ x) d
      ∙ ratio_scale n x d
      ∙ f.mul_comm _ x
      ∙ ap (λ t. x ⊗ t) (sym (evaluate-rational n d))
      ∙ unfold evaluate in refl
  evaluate-mul (rational n d) (rational n' d') =
      unfold mul in
      evaluate-rational (n ⊗ n') (d ⊗ d')
      ∙ ratio-mul n d n' d'
      ∙ ap₂ (λ s t. s ⊗ t) (sym (evaluate-rational n d)) (sym (evaluate-rational n' d'))

  -- Doubling, squaring, cubing and scaling by a field element do to the value what they do in the
  -- field.
  pub evaluate-powers :
      (x : GpuAssigned F) (r : F)
      → (evaluate (double x) ≡ evaluate x ⊕ evaluate x)
        × (evaluate (square x) ≡ evaluate x ⊗ evaluate x)
        × (evaluate (cube x) ≡ (evaluate x ⊗ evaluate x) ⊗ evaluate x)
        × (evaluate (mul_field x r) ≡ evaluate x ⊗ r)
  unfolding cube mul_field
  evaluate-powers x r = (
    doubled x,
    squared x,
    evaluate-mul (square x) x ∙ ap (λ t. t ⊗ evaluate x) (squared x),
    evaluate-mul x (trivial r) ∙ unfold evaluate in refl,
  )
