-- ===== src/Circuit/Expression/Value.antt =====
-- The value of an expression at a row, and that replacing selectors keeps it.
use halo2_gpu.Common.{
  ◌≡◌, sym, ap, ap₂, ◌∙◌, Bool, true, false, Option, none, some, List, get_elem?, if◌then◌else◌,
  >>=-eq-some,
}
use mathlib.Core.Option.{some-injective}
use halo2_gpu.Field.{Field, ◌⊗◌}
use halo2_gpu.Circuit.{GpuSelector, GpuFixedQuery, GpuAdviceQuery, GpuInstanceQuery, GpuChallenge}
use halo2_gpu.Circuit.Expression.{
  GpuExpression, constant, selector, fixed, advice, instance_query, challenge, negated, sum,
  product, scaled, evaluate,
}
use halo2_gpu.Circuit.Expression.Replace.{replace_selectors, add_some, mul_some}

-- What the queries read at one row.
pub record Row {ℓ} (F : Type ℓ) : Type ℓ where
  pub selector : GpuSelector → F
  pub fixed : GpuFixedQuery → F
  pub advice : GpuAdviceQuery → F
  pub instance_query : GpuInstanceQuery → F
  pub challenge : GpuChallenge → F

module _ {ℓ} {F : Type ℓ} ⦃f : Field F⦄ where
  -- `evaluate` with the closures of the field.
  unfoldable pub value : Row F → GpuExpression F → F
  unfolding evaluate
  value r = evaluate (record {
    constant = λ k. k;
    selector_column = r.selector;
    fixed_column = r.fixed;
    advice_column = r.advice;
    instance_column = r.instance_query;
    challenge = r.challenge;
    negated = f.neg;
    sum = f.add;
    product = f.mul;
    scaled = f.mul;
  })

  abbrev pub value_or_zero : Row F → Option (GpuExpression F) → F
  value_or_zero r none = f.zero
  value_or_zero r (some e) = value r e

  -- The row in which each selector reads what its replacement reads.
  abbrev pub substituted : List (GpuExpression F) → Row F → Row F
  substituted reps r = record r {
    selector = λ (s : GpuSelector). value_or_zero r (get_elem? reps s.index);
  }

  selector_value :
      (refused : Bool) (r : Row F) (o : Option (GpuExpression F)) (e : GpuExpression F)
      → (if refused then none else o) ≡ some e
      → value r e ≡ value_or_zero r o
  selector_value true r o e h = cc
  selector_value false r o e h = sym (ap (value_or_zero r) h)

  -- Where replacing selectors succeeds, the new expression has the value of the old one at the
  -- row in which each selector reads the value of its replacement.
  pub value-replace_selectors :
      (reps : List (GpuExpression F)) (must : Bool) (r : Row F) (e e' : GpuExpression F)
      → replace_selectors reps must e ≡ some e'
      → value r e' ≡ value (substituted reps r) e
  unfolding replace_selectors value
  value-replace_selectors reps must r (selector s) e' h =
      selector_value _ r (get_elem? reps s.index) e' h
  value-replace_selectors reps must r (negated a) e' h =
      let (a', ea, k) = >>=-eq-some (replace_selectors reps must a) (λ x. some (negated x)) h in
      sym (ap (value r) (some-injective (negated a') e' k))
      ∙ (ap f.neg (value-replace_selectors reps must r a a' ea))
  value-replace_selectors reps must r (scaled a c) e' h =
      let (a', ea, k) = >>=-eq-some (replace_selectors reps must a) (λ x. some (scaled x c)) h in
      sym (ap (value r) (some-injective (scaled a' c) e' k))
      ∙ (ap (λ t. t ⊗ c) (value-replace_selectors reps must r a a' ea))
  value-replace_selectors reps must r (sum a b) e' h =
      let (a', ea, k) = >>=-eq-some (replace_selectors reps must a) _ h in
      let (b', eb, l) = >>=-eq-some (replace_selectors reps must b) _ k in
      sym (ap (value r) (add_some a' b' e' l))
      ∙ (ap₂ f.add (value-replace_selectors reps must r a a' ea)
          (value-replace_selectors reps must r b b' eb))
  value-replace_selectors reps must r (product a b) e' h =
      let (a', ea, k) = >>=-eq-some (replace_selectors reps must a) _ h in
      let (b', eb, l) = >>=-eq-some (replace_selectors reps must b) _ k in
      sym (ap (value r) (mul_some a' b' e' l))
      ∙ (ap₂ f.mul (value-replace_selectors reps must r a a' ea)
          (value-replace_selectors reps must r b b' eb))
  value-replace_selectors reps must r (constant c) e' h =
      sym (ap (value r) (some-injective (constant c) e' h))
  value-replace_selectors reps must r (fixed q) e' h =
      sym (ap (value r) (some-injective (fixed q) e' h))
  value-replace_selectors reps must r (advice q) e' h =
      sym (ap (value r) (some-injective (advice q) e' h))
  value-replace_selectors reps must r (instance_query q) e' h =
      sym (ap (value r) (some-injective (instance_query q) e' h))
  value-replace_selectors reps must r (challenge q) e' h =
      sym (ap (value r) (some-injective (challenge q) e' h))
