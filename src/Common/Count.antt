-- ===== src/Common/Count.antt =====
-- An interface for types with a Boolean equality, and how often an element stands in a list. A
-- statement on counts stands for one on membership, duplicates and order at once.
use Prim.Native.Nat.{ℕ, suc, ◌+◌, ◌≤◌, ◌<◌}
use mathlib.Core.Path.{◌≡◌, refl, sym, ap}
use mathlib.Core.Logic.{◌↔◌, inl, inr}
use mathlib.Core.Bool.{Bool, true, false, ◌||◌}
use mathlib.Core.List.{List, [], ◌∷◌, ◌++◌}
use native.Mathlib.Omega.{arith}
use mathlib.Core.Option.{Option, none, some}
use halo2_gpu.Common.Tests.{if◌then◌else◌, Bool-cases, Option-cases, ltb, ◌>>=◌}
use halo2_gpu.Common.Lists.{length, length-append, get_elem?}

pub record Eq {ℓ} (K : Type ℓ) : Type ℓ where
  pub beq : K → K → Bool
  pub beq_iff : (a b : K) → (beq a b ≡ true) ↔ (a ≡ b)

module _ {ℓ} {K : Type ℓ} ⦃e : Eq K⦄ where
  infix 50 ◌≟◌
  abbrev pub ◌≟◌ : K → K → Bool
  a ≟ b = e.beq a b

  pub ≟_refl : (a : K) → (a ≟ a) ≡ true
  ≟_refl a = (e.beq_iff a a).1 refl

  pub ≟_sym : (a b : K) → (a ≟ b) ≡ (b ≟ a)
  ≟_sym a b = ground (arith, e.beq_iff a b, e.beq_iff b a)

  -- One for equal elements.
  abbrev pub same : K → K → ℕ
  same a b = if a ≟ b then 1 else 0

  pub same_of_eq : (a b : K) → a ≡ b → same a b ≡ 1
  same_of_eq a b h = rw ((e.beq_iff a b).1 h)

  pub eq_of_same : (a b : K) → 1 ≤ same a b → a ≡ b
  eq_of_same a b h = (e.beq_iff a b).0 (ground arith)

  pub same_le : (a b : K) → same a b ≤ 1
  same_le a b = ground arith

  pub ltb-same : (a b : K) (k : ℕ) → k ≡ same a b → ltb 0 k ≡ (a ≟ b)
  ltb-same a b k h = ground arith

  abbrev pub count : K → List K → ℕ
  count y [] = 0
  count y (x ∷ xs) = same y x + count y xs

  pub count-append : (y : K) (xs ys : List K) → count y (xs ++ ys) ≡ count y xs + count y ys
  count-append y [] ys = omega arith
  count-append y (x ∷ xs) ys = omega (arith, count-append y xs ys)

  -- A list is split at an element that it counts.
  pub split :
      (y : K) (xs : List K) → 1 ≤ count y xs → (us : List K) × (vs : List K) × (xs ≡ us ++ y ∷ vs)
  split y [] h = absurd (omega arith)
  split y (x ∷ xs) h = elim (Bool-cases (y ≟ x)) [
    | inl t ↦ ([], xs, ap (λ z. z ∷ xs) (sym ((e.beq_iff y x).0 t)))
    | inr f ↦ let (us, vs, p) = split y xs (ground arith) in (x ∷ us, vs, ap (λ z. x ∷ z) p)
  ]

  -- A list that counts no element more often than another is not longer.
  pub length_le : (xs ys : List K) → ((y : K) → count y xs ≤ count y ys) → length xs ≤ length ys
  length_le [] ys h = omega arith
  length_le (x ∷ xs) ys h =
      let (us, vs, p) = split x ys (ground (arith, h x, ≟_refl x)) in
      let rest = length_le xs (us ++ vs) (λ y.
        ground (arith, h y, ap (count y) p, count-append y us (x ∷ vs), count-append y us vs)) in
      omega (arith, rest, ap length p, length-append us (x ∷ vs), length-append us vs)

-- `iter().position` and `contains`
abbrev pub position {ℓ} : {C : Type ℓ} ⦃e : Eq C⦄ → List C → C → Option ℕ
position [] c = none
position (d ∷ ds) c = if d ≟ c then some 0 else (position ds c >>= λ i. some (suc i))

abbrev pub contains {ℓ} : {C : Type ℓ} ⦃e : Eq C⦄ → List C → C → Bool
contains [] c = false
contains (d ∷ ds) c = d ≟ c || contains ds c

module _ {ℓ} {C : Type ℓ} ⦃e : Eq C⦄ where
  pub position_lt : (ds : List C) (c : C) (i : ℕ) → position ds c ≡ some i → i < length ds
  position_lt [] c i h = cc
  position_lt (d ∷ ds) c i h = elim (Bool-cases (d ≟ c)) [
    | inl t ↦ ground arith
    | inr f ↦ elim (Option-cases (position ds c)) [
      | inl p ↦ ground arith
      | inr (j, p) ↦ ground (arith, position_lt ds c j p)
    ]
  ]

  pub position_get :
      (ds : List C) (c : C) (i : ℕ) → position ds c ≡ some i → get_elem? ds i ≡ some c
  position_get [] c i h = cc
  position_get (d ∷ ds) c i h = elim (Bool-cases (d ≟ c)) [
    | inl t ↦ ground (arith, (e.beq_iff d c).0 t)
    | inr f ↦ elim (Option-cases (position ds c)) [
      | inl p ↦ ground arith
      | inr (j, p) ↦ ground (arith, position_get ds c j p)
    ]
  ]

  pub position-none : (ds : List C) (c : C) → position ds c ≡ none → count c ds ≡ 0
  position-none [] c h = refl
  position-none (d ∷ ds) c h = elim (Option-cases (position ds c)) [
    | inl p ↦ ground (arith, position-none ds c p, ≟_sym d c)
    | inr (j, p) ↦ ground arith
  ]

  pub position_append :
      (ds ts : List C) (c : C) (i : ℕ) → position ds c ≡ some i → position (ds ++ ts) c ≡ some i
  position_append [] ts c i h = cc
  position_append (d ∷ ds) ts c i h = elim (Bool-cases (d ≟ c)) [
    | inl t ↦ ground arith
    | inr f ↦ elim (Option-cases (position ds c)) [
      | inl p ↦ ground arith
      | inr (j, p) ↦ ground (arith, position_append ds ts c j p)
    ]
  ]

  pub position_push :
      (ds : List C) (c : C) → position ds c ≡ none → position (ds ++ c ∷ []) c ≡ some (length ds)
  position_push [] c h = rw (≟_refl c)
  position_push (d ∷ ds) c h = elim (Bool-cases (d ≟ c)) [
    | inl t ↦ ground arith
    | inr f ↦ elim (Option-cases (position ds c)) [
      | inl p ↦ rw (f, position_push ds c p)
      | inr (j, p) ↦ ground arith
    ]
  ]

  pub contains-append :
      (ds ts : List C) (c : C) → contains (ds ++ ts) c ≡ (contains ds c || contains ts c)
  contains-append [] ts c = refl
  contains-append (d ∷ ds) ts c = ground (arith, contains-append ds ts c)
