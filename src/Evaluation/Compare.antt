-- ===== src/Evaluation/Compare.antt =====
-- The derived comparisons of value sources and calculations, and lookups in lists that grow.
use halo2_gpu.Common.{
  ℕ, zero, suc, ◌≡◌, refl, ap, ◌∙◌, Bool, true, some, List, [], ◌∷◌, ◌++◌, length, get_elem?, map,
  arith, Bool-cases, inl, inr, Option-cases,
}
use mathlib.Core.Option.{some-injective}
use halo2_gpu.Evaluation.{ValueSource, Calculation, source_eq, sources_eq, calculation_eq, position}

pub source_eq_sound : (a b : ValueSource) → source_eq a b ≡ true → a ≡ b
unfolding source_eq
source_eq_sound (ValueSource.constant i) b h = ground arith
source_eq_sound a b h = ground arith

pub source_eq_refl : (a : ValueSource) → source_eq a a ≡ true
unfolding source_eq
source_eq_refl (ValueSource.constant i) = ground arith
source_eq_refl a = ground arith

sources_eq_sound : (a b : List ValueSource) → sources_eq a b ≡ true → a ≡ b
sources_eq_sound [] [] h = refl
sources_eq_sound [] (w ∷ ws) h = cc
sources_eq_sound (v ∷ vs) [] h = cc
sources_eq_sound (v ∷ vs) (w ∷ ws) h = ground (arith, source_eq_sound v w, sources_eq_sound vs ws)

-- A calculation that the graph takes for equal is equal.
pub calculation_eq_sound : (a b : Calculation) → calculation_eq a b ≡ true → a ≡ b
unfolding calculation_eq
calculation_eq_sound (Calculation.add a b) (Calculation.add c d) h =
    ground (arith, source_eq_sound a c, source_eq_sound b d)
calculation_eq_sound (Calculation.sub a b) (Calculation.sub c d) h =
    ground (arith, source_eq_sound a c, source_eq_sound b d)
calculation_eq_sound (Calculation.mul a b) (Calculation.mul c d) h =
    ground (arith, source_eq_sound a c, source_eq_sound b d)
calculation_eq_sound (Calculation.square a) (Calculation.square b) h =
    ap Calculation.square (source_eq_sound a b h)
calculation_eq_sound (Calculation.double a) (Calculation.double b) h =
    ap Calculation.double (source_eq_sound a b h)
calculation_eq_sound (Calculation.negate a) (Calculation.negate b) h =
    ap Calculation.negate (source_eq_sound a b h)
calculation_eq_sound (Calculation.store a) (Calculation.store b) h =
    ap Calculation.store (source_eq_sound a b h)
calculation_eq_sound (Calculation.horner a ps b) (Calculation.horner c qs d) h =
    ground (arith, source_eq_sound a c, sources_eq_sound ps qs, source_eq_sound b d)
calculation_eq_sound _ _ h = cc

-- One list keeps what another one holds at each index.
abbrev pub Extends {ℓ} : {A : Type ℓ} → List A → List A → Type ℓ
Extends {A} xs ys = (i : ℕ) (a : A) → get_elem? xs i ≡ some a → get_elem? ys i ≡ some a

module _ {ℓ} {A : Type ℓ} where
  pub Extends-append : (xs ys : List A) → Extends xs (xs ++ ys)
  Extends-append [] ys i a h = cc
  Extends-append (x ∷ xs) ys zero a h = h
  Extends-append (x ∷ xs) ys (suc i) a h = Extends-append xs ys i a h

  pub get_elem?-append_length :
      (xs ys : List A) (a : A) → get_elem? (xs ++ a ∷ ys) (length xs) ≡ some a
  get_elem?-append_length [] ys a = refl
  get_elem?-append_length (x ∷ xs) ys a = get_elem?-append_length xs ys a

  pub get_elem?-map {κ} :
      {B : Type κ} (g : A → B) (xs : List A) (i : ℕ) (a : A)
      → get_elem? xs i ≡ some a
      → get_elem? (map g xs) i ≡ some (g a)
  get_elem?-map g [] i a h = cc
  get_elem?-map g (x ∷ xs) zero a h = ap some (ap g (some-injective x a h))
  get_elem?-map g (x ∷ xs) (suc i) a h = get_elem?-map g xs i a h

  -- The element at the position that `position` returns passes the test.
  pub position_sound :
      (p : A → Bool) (xs : List A) (i : ℕ)
      → position p xs ≡ some i
      → (a : A) × (get_elem? xs i ≡ some a) × (p a ≡ true)
  position_sound p [] i h = cc
  position_sound p (x ∷ xs) i h = elim (Bool-cases (p x)) [
    | inl t ↦ let e : i ≡ 0 = ground arith in (x, ap (get_elem? (x ∷ xs)) e, t)
    | inr n ↦ elim (Option-cases (position p xs)) [
      | inl e ↦ absurd (ground arith)
      | inr (j, e) ↦
          let k : i ≡ suc j = ground arith in
          let (a, ea, pa) = position_sound p xs j e in (a, ap (get_elem? (x ∷ xs)) k ∙ ea, pa)
    ]
  ]
