-- ===== src/Circuit/Expression/Replace.antt =====
-- halo2_proofs/src/plonk/circuit.rs: `replace_selectors`, the substitution of expressions for
-- virtual selectors inside `replace_selectors_with_fixed`. None stands for each panic: the
-- assertion on simple selectors, the index of a missing replacement, an operator's refusal.
use halo2_gpu.Common.{
  ℕ, ◌<◌, ◌≡◌, refl, Bool, true, false, ◌&&◌, Option, none, some, List, [], ◌∷◌, length, get_elem?,
  ◌>>=◌, if◌then◌else◌, arith, suc, zero,
}
use mathlib.Core.Option.{some-injective}
use halo2_gpu.Circuit.{GpuSelector}
use halo2_gpu.Circuit.Expression.{
  GpuExpression, constant, selector, fixed, advice, instance_query, challenge, negated, sum,
  product, scaled, evaluate, contains_simple_selector, add, mul,
}

module _ {ℓ} {F : Type ℓ} where
  abbrev replacement : List (GpuExpression F) → Bool → GpuSelector → Option (GpuExpression F)
  replacement reps must_be_nonsimple s =
      if must_be_nonsimple && s.is_simple then none else get_elem? reps s.index

  unfoldable pub replace_selectors :
      List (GpuExpression F) → Bool → GpuExpression F → Option (GpuExpression F)
  unfolding evaluate
  replace_selectors reps must_be_nonsimple = evaluate (record {
    constant = λ k. some (constant k);
    selector_column = replacement reps must_be_nonsimple;
    fixed_column = λ q. some (fixed q);
    advice_column = λ q. some (advice q);
    instance_column = λ q. some (instance_query q);
    challenge = λ q. some (challenge q);
    negated = λ a. (do x ← a; some (negated x));
    sum = λ a b. (do x ← a; y ← b; add x y);
    product = λ a b. (do x ← a; y ← b; mul x y);
    scaled = λ a k. (do x ← a; some (scaled x k));
  })

  -- No virtual selector is left.
  abbrev pub IsConcrete : GpuExpression F → Type 0
  IsConcrete (selector s) = ⊥
  IsConcrete (negated a) = IsConcrete a
  IsConcrete (sum a b) = IsConcrete a × IsConcrete b
  IsConcrete (product a b) = IsConcrete a × IsConcrete b
  IsConcrete (scaled a k) = IsConcrete a
  IsConcrete _ = Unit

  -- Every selector of the expression has a replacement, and is complex where that is required.
  abbrev pub IsCovered : ℕ → Bool → GpuExpression F → Type 0
  IsCovered n must (selector s) = (s.index < n) × ((must && s.is_simple) ≡ false)
  IsCovered n must (negated a) = IsCovered n must a
  IsCovered n must (sum a b) = IsCovered n must a × IsCovered n must b
  IsCovered n must (product a b) = IsCovered n must a × IsCovered n must b
  IsCovered n must (scaled a k) = IsCovered n must a
  IsCovered n must _ = Unit

  abbrev pub AllConcrete : List (GpuExpression F) → Type 0
  AllConcrete [] = Unit
  AllConcrete (e ∷ es) = IsConcrete e × AllConcrete es

  IsConcrete-simple : (e : GpuExpression F) → IsConcrete e → contains_simple_selector e ≡ false
  unfolding contains_simple_selector
  IsConcrete-simple (selector s) h = elim h [ ]
  IsConcrete-simple (negated a) h = IsConcrete-simple a h
  IsConcrete-simple (sum a b) h = ground (arith, IsConcrete-simple a h.0, IsConcrete-simple b h.1)
  IsConcrete-simple (product a b) h =
      ground (arith, IsConcrete-simple a h.0, IsConcrete-simple b h.1)
  IsConcrete-simple (scaled a k) h = IsConcrete-simple a h
  IsConcrete-simple _ h = refl

  add_concrete : (a b : GpuExpression F) → IsConcrete a → IsConcrete b → add a b ≡ some (sum a b)
  unfolding add
  add_concrete a b ca cb = rw (IsConcrete-simple a ca, IsConcrete-simple b cb)

  mul_concrete : (a b : GpuExpression F) → IsConcrete a → mul a b ≡ some (product a b)
  unfolding mul
  mul_concrete a b ca = rw (IsConcrete-simple a ca)

  abbrev Replaced : Option (GpuExpression F) → Type ℓ
  Replaced r = (e : GpuExpression F) × (r ≡ some e) × IsConcrete e

  get-Replaced :
      (reps : List (GpuExpression F)) (i : ℕ)
      → AllConcrete reps
      → i < length reps
      → Replaced (get_elem? reps i)
  get-Replaced [] i c h = absurd (omega arith)
  get-Replaced (e ∷ es) zero c h = (e, refl, c.0)
  get-Replaced (e ∷ es) (suc i) c h = get-Replaced es i c.1 (omega arith)

  -- Replacing selectors by expressions without selectors does not panic, and leaves none, if
  -- every selector has a replacement, and is complex where that is required.
  pub replace_selectors_total :
      (reps : List (GpuExpression F)) (must : Bool) (e : GpuExpression F)
      → AllConcrete reps
      → IsCovered (length reps) must e
      → (e' : GpuExpression F) × (replace_selectors reps must e ≡ some e') × IsConcrete e'
  unfolding replace_selectors
  replace_selectors_total reps must (selector s) c h = rw h.1 (get-Replaced reps s.index c h.0)
  replace_selectors_total reps must (constant k) c h = (constant k, refl, tt)
  replace_selectors_total reps must (fixed q) c h = (fixed q, refl, tt)
  replace_selectors_total reps must (advice q) c h = (advice q, refl, tt)
  replace_selectors_total reps must (instance_query q) c h = (instance_query q, refl, tt)
  replace_selectors_total reps must (challenge q) c h = (challenge q, refl, tt)
  replace_selectors_total reps must (negated a) c h =
      let (a', ea, ca) = replace_selectors_total reps must a c h in (negated a', rw ea, ca)
  replace_selectors_total reps must (scaled a k) c h =
      let (a', ea, ca) = replace_selectors_total reps must a c h in (scaled a' k, rw ea, ca)
  replace_selectors_total reps must (sum a b) c h =
      let (a', ea, ca) = replace_selectors_total reps must a c h.0 in
      let (b', eb, cb) = replace_selectors_total reps must b c h.1 in
      (sum a' b', rw (ea, eb) (add_concrete a' b' ca cb), (ca, cb))
  replace_selectors_total reps must (product a b) c h =
      let (a', ea, ca) = replace_selectors_total reps must a c h.0 in
      let (b', eb, cb) = replace_selectors_total reps must b c h.1 in
      (product a' b', rw (ea, eb) (mul_concrete a' b' ca), (ca, cb))

  -- What an operator that does not panic returns.
  accepted :
      (refused : Bool) (x e : GpuExpression F) → (if refused then none else some x) ≡ some e → x ≡ e
  accepted true x e h = cc
  accepted false x e h = some-injective x e h

  pub add_some : (a b e : GpuExpression F) → add a b ≡ some e → sum a b ≡ e
  unfolding add
  add_some a b e h = accepted _ (sum a b) e h

  pub mul_some : (a b e : GpuExpression F) → mul a b ≡ some e → product a b ≡ e
  unfolding mul
  mul_some a b e h = accepted _ (product a b) e h
