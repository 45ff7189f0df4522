-- ===== src/Circuit/System/Kept.antt =====
-- halo2_proofs/src/plonk/circuit.rs: what queries leave as it is: a well-formed constraint system
-- stays well formed.
use halo2_gpu.Common.{
  ℕ, ◌≡◌, refl, ap, ◌∙◌, subst, Option, none, some, List, [], ◌∷◌, ◌++◌, length, >>=-eq-some, ◌⊎◌,
  inl, inr,
}
use mathlib.Core.Option.{some-injective}
use halo2_gpu.Common.Count.{position}
use halo2_gpu.Circuit.{Rotation}
use halo2_gpu.Circuit.Column.{GpuColumn, GpuAdvice}
use halo2_gpu.Circuit.Column.Equal.{
  nat_eq, rotation_eq, pair_eq, any_eq, advice_eq, fixed_eq, instance_eq, column_eq,
}
use halo2_gpu.Circuit.System.{GpuConstraintSystem}
use halo2_gpu.Circuit.System.Queries.{
  increment, query_fixed_index, query_advice_index, query_instance_index, register_advice,
}
use halo2_gpu.Circuit.System.Counted.{increment-length}
use halo2_gpu.Circuit.System.Register.{
  Queried, itself, by_fixed, by_advice, by_instance, Queried-IsCounted, query_fixed_index_lem,
  query_advice_index_lem, query_instance_index_lem,
}
use halo2_gpu.Circuit.System.Valid.{IsPhased, IsReferenced, Referenced, Referenced-Grows, IsValid}

module _ {ℓ} {F : Type ℓ} where
  abbrev IsKept : (GpuConstraintSystem F → Type 0) → Type ℓ
  IsKept p = (s t : GpuConstraintSystem F) → Queried s t → p s → p t

  -- The counts and the list of queries are all that an advice query changes.
  advice_cases :
      (s u : GpuConstraintSystem F) (column : GpuColumn GpuAdvice) (at : Rotation) (i : ℕ)
      (o : Option ℕ)
      → register_advice s (column, at) o ≡ some (i, u)
      → (s ≡ u)
        ⊎ ((counts : List ℕ) × (length counts ≡ length s.num_advice_queries)
            × (record s {
              advice_queries = s.advice_queries ++ (column, at) ∷ [];
              num_advice_queries = counts;
            }
                ≡ u))
  advice_cases s u column at i (some j) h =
      inl (ap (λ (z : ℕ × GpuConstraintSystem F). z.1) (some-injective _ _ h))
  advice_cases s u column at i none h =
      let (counts, q, k) = >>=-eq-some (increment s.num_advice_queries column.index) _ h in
      inr (
        counts,
        (increment-length s.num_advice_queries counts column.index q).0,
        ap (λ (z : ℕ × GpuConstraintSystem F). z.1) (some-injective _ _ k),
      )

  advice-IsPhased :
      (s u : GpuConstraintSystem F) (column : GpuColumn GpuAdvice) (at : Rotation) (i : ℕ)
      → query_advice_index s column at ≡ some (i, u)
      → IsPhased s
      → IsPhased u
  unfolding query_advice_index
  advice-IsPhased s u column at i h v =
      elim (advice_cases s u column at i (position s.advice_queries (column, at)) h) [
        | inl p ↦ subst IsPhased p v
        | inr (counts, l, p) ↦ subst IsPhased p (record {
          columns_length = v.columns_length;
          challenges_length = v.challenges_length;
          counts_length = l ∙ v.counts_length;
          columns_closed = v.columns_closed;
          challenges_after = v.challenges_after;
        })
      ]

  -- What an advice query leaves as it is.
  abbrev Same : GpuConstraintSystem F → GpuConstraintSystem F → Type ℓ
  Same s u =
      (s.gates ≡ u.gates)
      × (s.lookups ≡ u.lookups)
      × (s.permutation ≡ u.permutation)
      × (s.constants ≡ u.constants)

  advice-Same :
      (s u : GpuConstraintSystem F) (column : GpuColumn GpuAdvice) (at : Rotation) (i : ℕ)
      → query_advice_index s column at ≡ some (i, u)
      → Same s u
  unfolding query_advice_index
  advice-Same s u column at i h =
      elim (advice_cases s u column at i (position s.advice_queries (column, at)) h) [
        | inl p ↦ subst (Same s) p (refl, refl, refl, refl)
        | inr (counts, l, p) ↦ subst (Same s) p (refl, refl, refl, refl)
      ]

  advice-IsReferenced :
      (s u : GpuConstraintSystem F) (column : GpuColumn GpuAdvice) (at : Rotation) (i : ℕ)
      → query_advice_index s column at ≡ some (i, u)
      → IsReferenced s
      → IsReferenced u
  advice-IsReferenced s u column at i h v =
      let (gates, lookups, permutation, constants) = advice-Same s u column at i h in
      let grown =
        Referenced-Grows s u s.gates s.lookups s.permutation s.constants
          (query_advice_index_lem s column at (i, u) h).0 v in
      subst (λ z. Referenced u z u.lookups u.permutation u.constants) gates
        (subst (λ z. Referenced u s.gates z u.permutation u.constants) lookups
          (subst (λ z. Referenced u s.gates s.lookups z u.constants) permutation
            (subst (λ z. Referenced u s.gates s.lookups s.permutation z) constants grown)))

  Queried-IsPhased : IsKept IsPhased
  unfolding query_fixed_index query_instance_index
  Queried-IsPhased s t itself v = v
  Queried-IsPhased s _ (by_fixed {t = t} column at q) v = Queried-IsPhased s t q v
  Queried-IsPhased s u (by_advice {t = t} column at i q h) v =
      advice-IsPhased t u column at i h (Queried-IsPhased s t q v)
  Queried-IsPhased s _ (by_instance {t = t} column at q) v = Queried-IsPhased s t q v

  Queried-IsReferenced : IsKept IsReferenced
  unfolding query_fixed_index query_instance_index
  Queried-IsReferenced s t itself v = v
  Queried-IsReferenced s _ (by_fixed {t = t} column at q) v =
      Referenced-Grows t (query_fixed_index t column at).1 t.gates t.lookups t.permutation
        t.constants (query_fixed_index_lem t column at).0 (Queried-IsReferenced s t q v)
  Queried-IsReferenced s u (by_advice {t = t} column at i q h) v =
      advice-IsReferenced t u column at i h (Queried-IsReferenced s t q v)
  Queried-IsReferenced s _ (by_instance {t = t} column at q) v =
      Referenced-Grows t (query_instance_index t column at).1 t.gates t.lookups t.permutation
        t.constants (query_instance_index_lem t column at).0 (Queried-IsReferenced s t q v)

  pub Queried-IsValid : IsKept IsValid
  Queried-IsValid s t q v = record {
    counted = Queried-IsCounted q v.counted;
    phased = Queried-IsPhased s t q v.phased;
    referenced = Queried-IsReferenced s t q v.referenced;
  }
