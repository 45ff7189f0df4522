-- ===== src/Circuit/Expression/Selectors.antt =====
-- halo2_proofs/src/plonk/circuit.rs: `extract_simple_selector`, the columns that an expression
-- uses, and what `contains_simple_selector` says of the operators.
use halo2_gpu.Common.{
  ℕ, ◌≡◌, refl, subst, ◌≢◌, Bool, true, false, Option, none, some, List, [], ◌∷◌, ◌++◌, ◌||◌, ◌&&◌,
  ◌⊎◌, ◌==◌, if◌then◌else◌, arith, inl, inr,
}
use mathlib.Core.Option.{some-injective}
use halo2_gpu.Circuit.{GpuSelector, GpuFixedQuery, GpuAdviceQuery, GpuInstanceQuery}
use halo2_gpu.Circuit.Expression.{
  GpuExpression, selector, negated, sum, product, scaled, Closures, evaluate, evaluate_selectors,
  contains_simple_selector, add, sub, mul,
}

-- `op` of `extract_simple_selector`; none is the panic on two simple selectors.
abbrev pub join_selectors :
    Option (Option GpuSelector) → Option (Option GpuSelector) → Option (Option GpuSelector)
join_selectors none b = none
join_selectors (some a) none = none
join_selectors (some none) (some b) = some b
join_selectors (some (some s)) (some none) = some (some s)
join_selectors (some (some s)) (some (some t)) = none

abbrev pub simple_only : GpuSelector → Option (Option GpuSelector)
simple_only s = some (if s.is_simple then some s else none)

-- `Itertools::unique`: the first occurrence of each index, in order.
abbrev pub contains : List ℕ → ℕ → Bool
contains [] i = false
contains (j ∷ js) i = j == i || contains js i

abbrev pub unique_from : List ℕ → List ℕ → List ℕ
unique_from seen [] = []
unique_from seen (i ∷ is) =
    let rest = unique_from (i ∷ seen) is in
    let skipped = unique_from seen is in if contains seen i then skipped else i ∷ rest

abbrev pub unique : List ℕ → List ℕ
unique is = unique_from [] is

-- What extraction found, against what `contains_simple_selector` found.
abbrev pub Agrees : Option (Option GpuSelector) → Bool → Type 0
Agrees none b = b ≡ true
Agrees (some none) b = b ≡ false
Agrees (some (some s)) b = (b ≡ true) × (s.is_simple ≡ true)

join-Agrees :
    (p q : Option (Option GpuSelector)) (a b : Bool)
    → Agrees p a
    → Agrees q b
    → Agrees (join_selectors p q) (a || b)
join-Agrees p q a b hp hq = ground arith

-- Neither side panics, and not both hold a simple selector.
join_defined :
    (p q : Option (Option GpuSelector)) (a b : Bool)
    → Agrees p a
    → Agrees q b
    → p ≢ none
    → q ≢ none
    → (a && b) ≡ false
    → join_selectors p q ≢ none
join_defined none q a b hp hq np nq h = absurd (np refl)
join_defined (some none) q a b hp hq np nq h = ground arith
join_defined (some (some s)) none a b hp hq np nq h = absurd (nq refl)
join_defined (some (some s)) (some none) a b hp hq np nq h = λ e. cc
join_defined (some (some s)) (some (some t)) a b hp hq np nq h = ground arith

module _ {ℓ} {F : Type ℓ} where
  unfoldable pub extract_simple_selector : GpuExpression F → Option (Option GpuSelector)
  unfolding evaluate_selectors
  extract_simple_selector = evaluate_selectors (some none) simple_only join_selectors

  -- The closures of `extract_instances`, `extract_advices` and `extract_fixed`, which differ in
  -- the query that they keep.
  abbrev extract :
      (GpuFixedQuery → List ℕ)
      → (GpuAdviceQuery → List ℕ)
      → (GpuInstanceQuery → List ℕ)
      → Closures F (List ℕ)
  extract on_fixed on_advice on_instance = record {
    constant = λ _. [];
    selector_column = λ _. [];
    fixed_column = on_fixed;
    advice_column = on_advice;
    instance_column = on_instance;
    challenge = λ _. [];
    negated = λ a. a;
    sum = λ a b. unique (a ++ b);
    product = λ a b. unique (a ++ b);
    scaled = λ a _. a;
  }

  unfoldable pub extract_instances : GpuExpression F → List ℕ
  unfolding evaluate
  extract_instances =
      evaluate (extract (λ _. []) (λ _. []) (λ (q : GpuInstanceQuery). q.column_index ∷ []))

  unfoldable pub extract_advices : GpuExpression F → List ℕ
  unfolding evaluate
  extract_advices =
      evaluate (extract (λ _. []) (λ (q : GpuAdviceQuery). q.column_index ∷ []) (λ _. []))

  unfoldable pub extract_fixed : GpuExpression F → List ℕ
  unfolding evaluate
  extract_fixed =
      evaluate (extract (λ (q : GpuFixedQuery). q.column_index ∷ []) (λ _. []) (λ _. []))

  -- `extract_simple_selector` finds a simple selector or panics on two exactly where
  -- `contains_simple_selector` holds.
  pub extract-Agrees :
      (e : GpuExpression F) → Agrees (extract_simple_selector e) (contains_simple_selector e)
  unfolding extract_simple_selector contains_simple_selector
  extract-Agrees (selector s) = ground arith
  extract-Agrees (negated a) = extract-Agrees a
  extract-Agrees (sum a b) = join-Agrees _ _ _ _ (extract-Agrees a) (extract-Agrees b)
  extract-Agrees (product a b) = join-Agrees _ _ _ _ (extract-Agrees a) (extract-Agrees b)
  extract-Agrees (scaled a _) = extract-Agrees a
  extract-Agrees _ = refl

  -- `extract_simple_selector` does not panic.
  abbrev pub IsWellFormed : GpuExpression F → Type 0
  IsWellFormed e = extract_simple_selector e ≢ none

  accepted-IsWellFormed :
      (refused : Bool) (x e : GpuExpression F)
      → (if refused then none else some x) ≡ some e
      → (refused ≡ false → IsWellFormed x)
      → IsWellFormed e
  accepted-IsWellFormed true x e h k = cc
  accepted-IsWellFormed false x e h k = subst IsWellFormed (some-injective _ _ h) (k refl)

  pair_defined :
      (a b : GpuExpression F)
      → IsWellFormed a
      → IsWellFormed b
      → (contains_simple_selector a && contains_simple_selector b) ≡ false
      → join_selectors (extract_simple_selector a) (extract_simple_selector b) ≢ none
  pair_defined a b wa wb h =
      join_defined (extract_simple_selector a) (extract_simple_selector b)
        (contains_simple_selector a) (contains_simple_selector b) (extract-Agrees a)
        (extract-Agrees b) wa wb h

  -- A sum, difference or product that the operators accept never makes
  -- `extract_simple_selector` panic, if its operands do not.
  pub operators-IsWellFormed :
      (a b e : GpuExpression F)
      → IsWellFormed a
      → IsWellFormed b
      → (add a b ≡ some e) ⊎ ((sub a b ≡ some e) ⊎ (mul a b ≡ some e))
      → IsWellFormed e
  unfolding add sub mul extract_simple_selector
  operators-IsWellFormed a b e wa wb (inl h) =
      accepted-IsWellFormed _ (sum a b) e h (λ k. pair_defined a b wa wb (ground arith))
  operators-IsWellFormed a b e wa wb (inr (inl h)) =
      accepted-IsWellFormed _ (sum a (negated b)) e h (λ k. pair_defined a b wa wb (ground arith))
  operators-IsWellFormed a b e wa wb (inr (inr h)) =
      accepted-IsWellFormed _ (product a b) e h (λ k. pair_defined a b wa wb k)
