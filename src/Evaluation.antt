-- ===== src/Evaluation.antt =====
-- halo2_proofs/src/plonk/evaluation.rs: the calculation graph that the quotient kernel runs.
-- `ValueSource` and `Calculation` are the nodes; a `GraphEvaluator` shares constants, rotations
-- and calculations. Each method on `&mut self` returns its result with the new graph.
pub mod Build
pub mod Gates
pub mod Run
pub mod Compare
pub mod Valid
pub mod Sound
pub mod Closed
pub mod Compress
pub mod Readable
pub mod Total
mod Examples
use halo2_gpu.Common.{
  ℕ, zero, suc, ◌+◌, ◌-◌, Bool, true, false, ◌&&◌, ◌||◌, not, Option, none, some, ◌==◌, leb, ltb,
  if◌then◌else◌, List, [], ◌∷◌, ◌++◌, length,
}
use halo2_gpu.Common.Int.{ℤ, int_eq}
use halo2_gpu.Field.{Field, ◌⊕◌, ◌=?◌}
use halo2_gpu.Circuit.{Rotation}

pub data ValueSource : Type 0 where
  constant intermediate : ℕ → ValueSource
  fixed advice instance_query : ℕ → ℕ → ValueSource
  challenge : ℕ → ValueSource
  beta gamma theta y previous_value : ValueSource

pub data Calculation : Type 0 where
  add sub mul : ValueSource → ValueSource → Calculation
  square double negate : ValueSource → Calculation
  horner : ValueSource → List ValueSource → ValueSource → Calculation
  store : ValueSource → Calculation

-- The derived `PartialEq` and `PartialOrd`: the variant, then its fields from left to right.
abbrev pub key : ValueSource → ℕ × ℕ × ℕ
key (ValueSource.constant i) = (0, i, 0)
key (ValueSource.intermediate i) = (1, i, 0)
key (ValueSource.fixed c r) = (2, c, r)
key (ValueSource.advice c r) = (3, c, r)
key (ValueSource.instance_query c r) = (4, c, r)
key (ValueSource.challenge i) = (5, i, 0)
key ValueSource.beta = (6, 0, 0)
key ValueSource.gamma = (7, 0, 0)
key ValueSource.theta = (8, 0, 0)
key ValueSource.y = (9, 0, 0)
key ValueSource.previous_value = (10, 0, 0)

abbrev pub key_eq : ℕ × ℕ × ℕ → ℕ × ℕ × ℕ → Bool
key_eq (a, b, c) (a', b', c') = a == a' && b == b' && c == c'

abbrev pub key_le : ℕ × ℕ × ℕ → ℕ × ℕ × ℕ → Bool
key_le (a, b, c) (a', b', c') = ltb a a' || (a == a' && (ltb b b' || (b == b' && leb c c')))

unfoldable pub source_eq : ValueSource → ValueSource → Bool
source_eq a b = key_eq (key a) (key b)

unfoldable pub source_le : ValueSource → ValueSource → Bool
source_le a b = key_le (key a) (key b)

abbrev pub sources_eq : List ValueSource → List ValueSource → Bool
sources_eq [] [] = true
sources_eq (v ∷ vs) (w ∷ ws) = source_eq v w && sources_eq vs ws
sources_eq _ _ = false

unfoldable pub calculation_eq : Calculation → Calculation → Bool
calculation_eq (add a b) (add a' b') = source_eq a a' && source_eq b b'
calculation_eq (sub a b) (sub a' b') = source_eq a a' && source_eq b b'
calculation_eq (mul a b) (mul a' b') = source_eq a a' && source_eq b b'
calculation_eq (square a) (square a') = source_eq a a'
calculation_eq (double a) (double a') = source_eq a a'
calculation_eq (negate a) (negate a') = source_eq a a'
calculation_eq (horner a ps b) (horner a' ps' b') =
    source_eq a a' && (sources_eq ps ps' && source_eq b b')
calculation_eq (store a) (store a') = source_eq a a'
calculation_eq _ _ = false

pub record CalculationInfo : Type 0 where
  pub calculation : Calculation
  pub target : ℕ

pub record GraphEvaluator {ℓ} (F : Type ℓ) : Type ℓ where
  pub constants : List F
  pub rotations : List Rotation
  pub calculations : List CalculationInfo
  pub num_intermediates : ℕ

-- `iter().position(p)`
abbrev pub position {ℓ} : {A : Type ℓ} → (A → Bool) → List A → Option ℕ
position p [] = none
position p (x ∷ xs) =
    let rest = position p xs in
    if p x then some 0 else elim rest [ none ↦ none | some i ↦ some (suc i) ]

-- `iter().find(|c| c.calculation == calculation)`, for the target.
unfoldable pub find_target : Calculation → List CalculationInfo → Option ℕ
find_target c [] = none
find_target c (info ∷ infos) =
    let rest = find_target c infos in
    if calculation_eq info.calculation c then some info.target else rest

module _ {ℓ} {F : Type ℓ} where
  unfoldable pub add_rotation : GraphEvaluator F → Rotation → ℕ × GraphEvaluator F
  add_rotation g r = elim (position (λ c. int_eq c r) g.rotations) [
    | some i ↦ (i, g)
    | none ↦ (length g.rotations, record g { rotations = g.rotations ++ r ∷ [] })
  ]

  unfoldable pub add_calculation : GraphEvaluator F → Calculation → ValueSource × GraphEvaluator F
  add_calculation g c = elim (find_target c g.calculations) [
    | some t ↦ (ValueSource.intermediate t, g)
    | none ↦ (
      ValueSource.intermediate g.num_intermediates,
      record g {
        calculations =
            g.calculations ++ record { calculation = c; target = g.num_intermediates } ∷ [];
        num_intermediates = g.num_intermediates + 1;
      },
    )
  ]

module _ {ℓ} {F : Type ℓ} ⦃f : Field F⦄ where
  -- `GraphEvaluator::default`; `from(2u64)` is one plus one.
  unfoldable pub default_graph : GraphEvaluator F
  default_graph = record {
    constants = f.zero ∷ f.one ∷ (f.one ⊕ f.one) ∷ [];
    rotations = [];
    calculations = [];
    num_intermediates = 0;
  }

  unfoldable pub add_constant : GraphEvaluator F → F → ValueSource × GraphEvaluator F
  add_constant g k = elim (position (λ c. c =? k) g.constants) [
    | some i ↦ (ValueSource.constant i, g)
    | none ↦
        (ValueSource.constant (length g.constants), record g { constants = g.constants ++ k ∷ [] })
  ]
