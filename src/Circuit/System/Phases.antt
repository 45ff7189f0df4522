-- ===== src/Circuit/System/Phases.antt =====
-- halo2_proofs/src/plonk/circuit.rs: `phases` and the greatest element of a list.
use halo2_gpu.Common.{
  ℕ, zero, suc, ◌+◌, ◌-◌, max, ◌≤◌, ◌<◌, ◌≡◌, ◌↔◌, refl, subst, true, ◌==◌, leb, some, List, [],
  ◌∷◌, length, get_elem?, Bool-cases, Option-cases, inl, inr, arith,
}
use halo2_gpu.Common.Count.{contains}
use halo2_gpu.Circuit.{Phase}
use halo2_gpu.Circuit.Column.Equal.{nat_eq}
use halo2_gpu.Circuit.System.{GpuConstraintSystem}
use halo2_gpu.Circuit.System.Allocate.{maximum, unwrap_or, phases_from, phases}
use halo2_gpu.Circuit.System.Reached.{Reached, Reached-IsValid}

-- The greatest element, from the least that counts.
abbrev pub at_least : ℕ → List ℕ → ℕ
at_least d ns = unwrap_or (maximum ns) d

pub at_least_cons : (d m : ℕ) (ns : List ℕ) → at_least d (m ∷ ns) ≡ max m (at_least m ns)
at_least_cons d m ns = elim (Option-cases (maximum ns)) [
  | inl p ↦ rw (p) (omega arith)
  | inr (k, p) ↦ rw (p)
]

-- It is at least every element, and at most what all of them are.
pub le_at_least : (ns : List ℕ) (c n d : ℕ) → get_elem? ns c ≡ some n → n ≤ at_least d ns
le_at_least [] c n d h = cc
le_at_least (m ∷ ns) zero n d h = ground (arith, at_least_cons d m ns)
le_at_least (m ∷ ns) (suc c) n d h = omega (arith, at_least_cons d m ns, le_at_least ns c n m h)

pub at_least_le :
    (ns : List ℕ) (d k : ℕ)
    → d ≤ k
    → ((c n : ℕ) → get_elem? ns c ≡ some n → n ≤ k)
    → at_least d ns ≤ k
at_least_le [] d k b h = b
at_least_le (m ∷ ns) d k b h =
    let least = h 0 m refl in
    omega (arith, at_least_cons d m ns, least, at_least_le ns m k least (λ c n. h (suc c) n))

-- A phase in the list is one of its elements, and the greatest is one.
contains_le : (ps : List Phase) (p d : Phase) → contains ps p ≡ true → p ≤ at_least d ps
contains_le [] p d h = cc
contains_le (q ∷ ps) p d h = elim (Bool-cases (q == p)) [
  | inl t ↦ ground (arith, at_least_cons d q ps)
  | inr f ↦
      let g : contains ps p ≡ true = ground arith in
      omega (arith, at_least_cons d q ps, contains_le ps p q g)
]

contains_greatest :
    (q : Phase) (ps : List Phase) (d : Phase) → contains (q ∷ ps) (at_least d (q ∷ ps)) ≡ true
contains_greatest q [] d = ground arith
contains_greatest q (r ∷ ps) d =
    let later = contains_greatest r ps q in
    elim (Bool-cases (leb (at_least q (r ∷ ps)) q)) [
      | inl t ↦
          let e : max q (at_least q (r ∷ ps)) ≡ q = ground arith in
          rw (at_least_cons d q (r ∷ ps), e) (ground arith)
      | inr f ↦
          let e : max q (at_least q (r ∷ ps)) ≡ at_least q (r ∷ ps) = ground arith in
          rw (at_least_cons d q (r ∷ ps), e) (ground (arith, later))
    ]

greatest_phase : (ps : List Phase) → 1 ≤ length ps → contains ps (at_least 0 ps) ≡ true
greatest_phase [] h = absurd (omega arith)
greatest_phase (q ∷ ps) h = contains_greatest q ps 0

descend :
    (ps : List Phase)
    → ((p : Phase) → contains ps (suc p) ≡ true → contains ps p ≡ true)
    → (k p : ℕ) → contains ps (p + k) ≡ true
    → contains ps p ≡ true
descend ps closed zero p h = subst (λ z. contains ps z ≡ true) (omega arith) h
descend ps closed (suc k) p h =
    closed p (descend ps closed k (suc p) (subst (λ z. contains ps z ≡ true) (omega arith) h))

phases_from_iff : (a n p : ℕ) → (contains (phases_from a n) p ≡ true) ↔ ((a ≤ p) × (p < a + n))
phases_from_iff a zero p = ((λ h. absurd (cc)), (λ h. absurd (omega arith)))
phases_from_iff a (suc n) p = elim (Bool-cases (a == p)) [
  | inl t ↦ ((λ h. ground arith), (λ h. ground arith))
  | inr f ↦
      let (to, from) = phases_from_iff (a + 1) n p in
      (
        (λ h. let (l, u) = to (ground arith) in (omega arith, omega arith)),
        (λ h.
            let g : contains (phases_from (a + 1) n) p ≡ true = from (ground arith, omega arith) in
            ground arith),
      )
]

module _ {ℓ} {F : Type ℓ} (s : GpuConstraintSystem F) where
  -- In a constraint system that a configuration reaches, and that has an advice column, `phases`
  -- has exactly the phases of the advice columns.
  pub phases_iff :
      Reached s
      → 1 ≤ s.num_advice_columns
      → (p : Phase) → (contains (phases s) p ≡ true) ↔ (contains s.advice_column_phase p ≡ true)
  unfolding phases
  phases_iff h n p = (to, from)
    where
      columns : List Phase
      columns = s.advice_column_phase

      greatest : ℕ
      greatest = at_least 0 columns

      to : contains (phases_from 0 (greatest + 1)) p ≡ true → contains columns p ≡ true
      to g =
          let (l, u) = (phases_from_iff 0 (greatest + 1) p).0 g in
          let v = (Reached-IsValid s h).phased in
          let top = greatest_phase columns (omega (arith, v.columns_length, n)) in
          descend columns v.columns_closed (greatest - p) p
            (subst (λ z. contains columns z ≡ true) (omega (arith, u)) top)

      from : contains columns p ≡ true → contains (phases_from 0 (greatest + 1)) p ≡ true
      from c =
          (phases_from_iff 0 (greatest + 1) p).1
            (omega arith, omega (arith, contains_le columns p 0 c))
