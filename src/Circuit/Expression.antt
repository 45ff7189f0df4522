-- ===== src/Circuit/Expression.antt =====
-- halo2_proofs/src/plonk/circuit.rs: `GpuExpression<F>`, its evaluation with closures, its degree
-- and complexity, and the operators that build it. The ten closures of `evaluate` are a record.
-- An operator that panics returns none.
pub mod Lazy
pub mod Selectors
pub mod Replace
pub mod Value
pub mod Degree
mod Examples
use halo2_gpu.Common.{
  ℕ, ◌+◌, max, Bool, true, false, ◌||◌, ◌&&◌, Option, none, some, if◌then◌else◌, leb, List, [], ◌∷◌,
}
use halo2_gpu.Circuit.{GpuSelector, GpuFixedQuery, GpuAdviceQuery, GpuInstanceQuery, GpuChallenge}

pub data GpuExpression {ℓ} (F : Type ℓ) : Type ℓ where
  constant : F → GpuExpression F
  selector : GpuSelector → GpuExpression F
  fixed : GpuFixedQuery → GpuExpression F
  advice : GpuAdviceQuery → GpuExpression F
  instance_query : GpuInstanceQuery → GpuExpression F
  challenge : GpuChallenge → GpuExpression F
  negated : GpuExpression F → GpuExpression F
  sum : GpuExpression F → GpuExpression F → GpuExpression F
  product : GpuExpression F → GpuExpression F → GpuExpression F
  scaled : GpuExpression F → F → GpuExpression F

-- The closures that `evaluate` and `evaluate_lazy` take, in their order.
pub record Closures {ℓ κ} (F : Type ℓ) (T : Type κ) : Type (ℓ ⊔ κ) where
  pub constant : F → T
  pub selector_column : GpuSelector → T
  pub fixed_column : GpuFixedQuery → T
  pub advice_column : GpuAdviceQuery → T
  pub instance_column : GpuInstanceQuery → T
  pub challenge : GpuChallenge → T
  pub negated : T → T
  pub sum : T → T → T
  pub product : T → T → T
  pub scaled : T → F → T

module _ {ℓ κ} {F : Type ℓ} {T : Type κ} where
  unfoldable pub evaluate : Closures F T → GpuExpression F → T
  evaluate c (constant k) = c.constant k
  evaluate c (selector s) = c.selector_column s
  evaluate c (fixed q) = c.fixed_column q
  evaluate c (advice q) = c.advice_column q
  evaluate c (instance_query q) = c.instance_column q
  evaluate c (challenge q) = c.challenge q
  evaluate c (negated a) = c.negated (evaluate c a)
  evaluate c (sum a b) = c.sum (evaluate c a) (evaluate c b)
  evaluate c (product a b) = c.product (evaluate c a) (evaluate c b)
  evaluate c (scaled a k) = c.scaled (evaluate c a) k

  -- `evaluate_selectors`: `selector_fn` on selectors, `combine` on sums and products, `identity`
  -- everywhere else.
  unfoldable pub evaluate_selectors : T → (GpuSelector → T) → (T → T → T) → GpuExpression F → T
  unfolding evaluate
  evaluate_selectors identity selector_fn combine = evaluate (record {
    constant = λ _. identity;
    selector_column = selector_fn;
    fixed_column = λ _. identity;
    advice_column = λ _. identity;
    instance_column = λ _. identity;
    challenge = λ _. identity;
    negated = λ a. a;
    sum = combine;
    product = combine;
    scaled = λ a _. a;
  })

module _ {ℓ} {F : Type ℓ} where
  unfoldable pub degree : GpuExpression F → ℕ
  degree (constant _) = 0
  degree (selector _) = 1
  degree (fixed _) = 1
  degree (advice _) = 1
  degree (instance_query _) = 1
  degree (challenge _) = 0
  degree (negated a) = degree a
  degree (sum a b) = max (degree a) (degree b)
  degree (product a b) = degree a + degree b
  degree (scaled a _) = degree a

  unfoldable pub complexity : GpuExpression F → ℕ
  complexity (constant _) = 0
  complexity (selector _) = 1
  complexity (fixed _) = 1
  complexity (advice _) = 1
  complexity (instance_query _) = 1
  complexity (challenge _) = 0
  complexity (negated a) = complexity a + 5
  complexity (sum a b) = complexity a + complexity b + 15
  complexity (product a b) = complexity a + complexity b + 30
  complexity (scaled a _) = complexity a + 30

  unfoldable pub contains_simple_selector : GpuExpression F → Bool
  unfolding evaluate_selectors
  contains_simple_selector =
      evaluate_selectors false (λ (s : GpuSelector). s.is_simple) (λ a b. a || b)

  -- `Neg`, `Add`, `Sub`, `Mul` and `Mul<F>`; none is the panic on simple selectors.
  abbrev pub neg : GpuExpression F → GpuExpression F
  neg a = negated a

  unfoldable pub add : GpuExpression F → GpuExpression F → Option (GpuExpression F)
  add a b =
      if contains_simple_selector a || contains_simple_selector b then none else some (sum a b)

  unfoldable pub sub : GpuExpression F → GpuExpression F → Option (GpuExpression F)
  sub a b =
      if contains_simple_selector a || contains_simple_selector b
      then none
      else some (sum a (neg b))

  unfoldable pub mul : GpuExpression F → GpuExpression F → Option (GpuExpression F)
  mul a b =
      if contains_simple_selector a && contains_simple_selector b then none else some (product a b)

  abbrev pub scale : GpuExpression F → F → GpuExpression F
  scale a k = scaled a k

-- `evaluate_lazy`: a product evaluates the simpler factor first and skips the other where the
-- first is zero. The closures are pure, so a skipped evaluation is one whose value is not used.
module _ {ℓ κ} {F : Type ℓ} {T : Type κ} (eq : T → T → Bool) (zero : T) (c : Closures F T) where
  abbrev lazy_product : T → T → T
  lazy_product a b = if eq a zero then a else c.product a b

  unfoldable pub evaluate_lazy : GpuExpression F → T
  evaluate_lazy (constant k) = c.constant k
  evaluate_lazy (selector s) = c.selector_column s
  evaluate_lazy (fixed q) = c.fixed_column q
  evaluate_lazy (advice q) = c.advice_column q
  evaluate_lazy (instance_query q) = c.instance_column q
  evaluate_lazy (challenge q) = c.challenge q
  evaluate_lazy (negated a) = c.negated (evaluate_lazy a)
  evaluate_lazy (sum a b) = c.sum (evaluate_lazy a) (evaluate_lazy b)
  evaluate_lazy (product a b) =
      let value_a = evaluate_lazy a in
      let value_b = evaluate_lazy b in
      if leb (complexity a) (complexity b)
      then lazy_product value_a value_b
      else lazy_product value_b value_a
  evaluate_lazy (scaled a k) = c.scaled (evaluate_lazy a) k
