-- ===== src/Circuit/Expression/Lazy.antt =====
-- `evaluate_lazy` computes what `evaluate` computes.
use halo2_gpu.Common.{
  ◌≡◌, refl, sym, ap, ap₂, ◌∙◌, ◌↔◌, inl, inr, Bool, true, Bool-cases, leb, if◌then◌else◌,
}
use halo2_gpu.Circuit.Expression.{
  GpuExpression, negated, sum, product, scaled, Closures, evaluate, evaluate_lazy, lazy_product,
  complexity,
}

module _ {ℓ κ} {F : Type ℓ} {T : Type κ} (eq : T → T → Bool) (zero : T) (c : Closures F T)
    (eq_iff : (a b : T) → (eq a b ≡ true) ↔ (a ≡ b))
    (product_comm : (a b : T) → c.product a b ≡ c.product b a)
    (product_zero : (b : T) → c.product zero b ≡ zero) where
  lazy_product_lem : (a b : T) → lazy_product eq zero c a b ≡ c.product a b
  lazy_product_lem a b = elim (Bool-cases (eq a zero)) [
    | inl t ↦
        let e : a ≡ zero = (eq_iff a zero).0 t in
        rw t (e ∙ sym (product_zero b) ∙ ap (λ t. c.product t b) (sym e))
    | inr n ↦ rw n
  ]

  product_lem :
      (order : Bool) (a b : T)
      → (if order then lazy_product eq zero c a b else lazy_product eq zero c b a) ≡ c.product a b
  product_lem true a b = lazy_product_lem a b
  product_lem order a b = lazy_product_lem b a ∙ product_comm b a

  -- If the equality test decides equality, the product of the closures is commutative and zero
  -- absorbs from the left, then the lazy evaluation has the value of the strict one, whichever
  -- factor it takes first and whether it skips the other.
  pub evaluate_lazy_lem : (e : GpuExpression F) → evaluate_lazy eq zero c e ≡ evaluate c e
  unfolding evaluate_lazy evaluate
  evaluate_lazy_lem (negated a) = ap c.negated (evaluate_lazy_lem a)
  evaluate_lazy_lem (sum a b) = ap₂ c.sum (evaluate_lazy_lem a) (evaluate_lazy_lem b)
  evaluate_lazy_lem (product a b) =
      product_lem (leb (complexity a) (complexity b)) (evaluate_lazy eq zero c a)
        (evaluate_lazy eq zero c b)
      ∙ ap₂ c.product (evaluate_lazy_lem a) (evaluate_lazy_lem b)
  evaluate_lazy_lem (scaled a k) = ap (λ t. c.scaled t k) (evaluate_lazy_lem a)
  evaluate_lazy_lem _ = refl
