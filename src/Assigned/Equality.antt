-- ===== src/Assigned/Equality.antt =====
-- `PartialEq` and `is_zero_vartime` of `GpuAssigned<F>` decide what the values are, and the
-- numerator and denominator that the batched inversion reads determine the value.
use halo2_gpu.Common.{◌≡◌, refl, sym, ap, subst₂, ◌∙◌, ◌≢◌, ◌↔◌, inl, inr, true, arith}
use halo2_gpu.Field.{Field, ◌⊗◌, ◌=?◌}
use halo2_gpu.Field.Laws.{
  unwrap_or, inv_or_zero, inv-one, mul-inv, zero-mul, mul_nonzero, mul_cancel, zero-cases, =?_false,
}
use halo2_gpu.Assigned.{
  GpuAssigned, zero, trivial, rational, is_zero, eq, evaluate, numerator, denominator,
}
use halo2_gpu.Assigned.Value.{ratio, ratio_scale, evaluate-rational, evaluate-rational_zero}

module _ {ℓ} {F : Type ℓ} ⦃f : Field F⦄ where
  inv_nonzero : (d : F) → d ≢ f.zero → inv_or_zero d ≢ f.zero
  inv_nonzero d ne h =
      f.one≢zero (sym (mul-inv d ne) ∙ ap (λ t. d ⊗ t) h ∙ f.mul_comm d f.zero ∙ zero-mul d)

  ratio_nonzero : (n d : F) → n ≢ f.zero → d ≢ f.zero → ratio n d ≢ f.zero
  ratio_nonzero n d nn nd = mul_nonzero n (inv_or_zero d) nn (inv_nonzero d nd)

  is_zero-rational : (n d : F) → (is_zero (rational n d) ≡ true) ↔ (ratio n d ≡ f.zero)
  is_zero-rational n d = elim (zero-cases d) [
    | inl e ↦ (
      (λ h.
          sym (evaluate-rational n d)
          ∙ ap (λ t. evaluate (rational n t)) e
          ∙ evaluate-rational_zero n),
      (λ h. ground (arith, (f.beq_iff d f.zero).1 e)),
    )
    | inr nd ↦ elim (zero-cases n) [
      | inl e ↦ (
        (λ h. ap (λ t. ratio t d) e ∙ zero-mul (inv_or_zero d)),
        (λ h. ground (arith, (f.beq_iff n f.zero).1 e)),
      )
      | inr nn ↦ (
        (λ h. cc (=?_false n f.zero nn, =?_false d f.zero nd, h)),
        (λ h. absurd (ratio_nonzero n d nn nd h)),
      )
    ]
  ]

  -- `is_zero_vartime` holds exactly when the value is zero.
  pub is_zero_iff : (x : GpuAssigned F) → (is_zero x ≡ true) ↔ (evaluate x ≡ f.zero)
  is_zero_iff zero = unfold evaluate in ((λ h. refl), (λ h. refl))
  is_zero_iff (trivial x) = unfold evaluate in f.beq_iff x f.zero
  is_zero_iff (rational n d) = rw (evaluate-rational n d) (is_zero-rational n d)

  zero_iff : (x : GpuAssigned F) → (is_zero x ≡ true) ↔ (f.zero ≡ evaluate x)
  zero_iff x = ((λ h. sym ((is_zero_iff x).0 h)), (λ h. (is_zero_iff x).1 (sym h)))

  -- Cross-multiplication by a denominator that is not zero.
  ratio_iff : (x n d : F) → d ≢ f.zero → (x ⊗ d ≡ n) ↔ (x ≡ ratio n d)
  ratio_iff x n d ne =
      ((λ h. mul_cancel x (ratio n d) d ne (h ∙ sym cleared)), (λ h. ap (λ t. t ⊗ d) h ∙ cleared))
    where
      cleared : ratio n d ⊗ d ≡ n
      cleared =
          f.mul_assoc n (inv_or_zero d) d
          ∙ ap (λ t. n ⊗ t) (f.mul_comm (inv_or_zero d) d ∙ mul-inv d ne)
          ∙ f.mul-one n

  eq_rational : (x n d : F) → d ≢ f.zero → ((x ⊗ d =? n) ≡ true) ↔ (x ≡ evaluate (rational n d))
  eq_rational x n d ne = rw (evaluate-rational n d) (
    (λ h. (ratio_iff x n d ne).0 ((f.beq_iff (x ⊗ d) n).0 h)),
    (λ h. (f.beq_iff (x ⊗ d) n).1 ((ratio_iff x n d ne).1 h)),
  )

  -- n/d = n'/d' exactly when n d' = d n'.
  cross_iff :
      (n d n' d' : F)
      → d ≢ f.zero
      → d' ≢ f.zero
      → ((n ⊗ d' =? d ⊗ n') ≡ true) ↔ (evaluate (rational n d) ≡ evaluate (rational n' d'))
  cross_iff n d n' d' ne ne' =
      rw (evaluate-rational n d, evaluate-rational n' d')
        (
          (λ h. (ratio_iff (ratio n d) n' d' ne').0 (forward ((f.beq_iff (n ⊗ d') (d ⊗ n')).0 h))),
          (λ h. (f.beq_iff (n ⊗ d') (d ⊗ n')).1 (backward ((ratio_iff (ratio n d) n' d' ne').1 h))),
        )
    where
      forward : n ⊗ d' ≡ d ⊗ n' → ratio n d ⊗ d' ≡ n'
      forward e =
          sym (ratio_scale n d' d) ∙ sym ((ratio_iff n' (n ⊗ d') d ne).0 (f.mul_comm n' d ∙ sym e))

      backward : ratio n d ⊗ d' ≡ n' → n ⊗ d' ≡ d ⊗ n'
      backward e =
          sym ((ratio_iff n' (n ⊗ d') d ne).1 (sym e ∙ sym (ratio_scale n d' d))) ∙ f.mul_comm n' d

  eq_trivial_rational :
      (x n d : F) → (eq (trivial x) (rational n d) ≡ true) ↔ (x ≡ evaluate (rational n d))
  unfolding eq
  eq_trivial_rational x n d = elim (zero-cases d) [
    | inl e ↦ rw ((f.beq_iff d f.zero).1 e, e, evaluate-rational_zero n) (f.beq_iff x f.zero)
    | inr ne ↦ rw (=?_false d f.zero ne) (eq_rational x n d ne)
  ]

  eq_rational_rational :
      (n d n' d' : F)
      → (eq (rational n d) (rational n' d') ≡ true)
        ↔ (evaluate (rational n d) ≡ evaluate (rational n' d'))
  unfolding eq
  eq_rational_rational n d n' d' = elim (zero-cases d) [
    | inl e ↦ rw ((f.beq_iff d f.zero).1 e, e, evaluate-rational_zero n) (zero_iff (rational n' d'))
    | inr ne ↦ elim (zero-cases d') [
      | inl e' ↦
          let test : eq (rational n d) (rational n' d') ≡ is_zero (rational n d) =
            ground (arith, =?_false d f.zero ne, (f.beq_iff d' f.zero).1 e') in
          let value : evaluate (rational n' d') ≡ f.zero =
            ap (λ t. evaluate (rational n' t)) e' ∙ evaluate-rational_zero n' in
          subst₂ (λ b v. (b ≡ true) ↔ (evaluate (rational n d) ≡ v)) (sym test) (sym value)
            (is_zero_iff (rational n d))
      | inr ne' ↦ rw (=?_false d f.zero ne, =?_false d' f.zero ne') (cross_iff n d n' d' ne ne')
    ]
  ]

  -- `==` on assigned values holds exactly when they evaluate to the same field element, so it is
  -- an equivalence although fractions have many representations.
  pub eq_iff : (x y : GpuAssigned F) → (eq x y ≡ true) ↔ (evaluate x ≡ evaluate y)
  unfolding eq evaluate
  eq_iff zero zero = ((λ h. refl), (λ h. refl))
  eq_iff zero (trivial y) = zero_iff (trivial y)
  eq_iff zero (rational n d) = zero_iff (rational n d)
  eq_iff (trivial x) zero = is_zero_iff (trivial x)
  eq_iff (rational n d) zero = is_zero_iff (rational n d)
  eq_iff (trivial x) (trivial y) = f.beq_iff x y
  eq_iff (trivial x) (rational n d) = eq_trivial_rational x n d
  eq_iff (rational n d) (trivial x) =
      ((λ h. sym ((eq_trivial_rational x n d).0 h)), (λ h. (eq_trivial_rational x n d).1 (sym h)))
  eq_iff (rational n d) (rational n' d') = eq_rational_rational n d n' d'

  -- The numerator, and the denominator or one where there is none, determine the value: this is
  -- what the batched inversion computes with.
  pub evaluate-numerator :
      (x : GpuAssigned F) → evaluate x ≡ ratio (numerator x) (unwrap_or (denominator x) f.one)
  evaluate-numerator zero = unfold evaluate numerator denominator in sym (zero-mul _)
  evaluate-numerator (trivial x) =
      unfold evaluate numerator denominator in sym (ap (λ t. x ⊗ t) inv-one ∙ f.mul-one x)
  evaluate-numerator (rational n d) = unfold numerator denominator in evaluate-rational n d
