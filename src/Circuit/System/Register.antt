-- ===== src/Circuit/System/Register.antt =====
-- halo2_proofs/src/plonk/circuit.rs: what `query_fixed_index`, `query_advice_index` and
-- `query_instance_index` do to the lists of queries and to the counts of the advice columns.
use halo2_gpu.Common.{
  ℕ, ◌<◌, ◌≡◌, refl, subst, Option, none, some, List, [], ◌∷◌, ◌++◌, length, >>=-eq-some, arith,
}
use mathlib.Core.Option.{some-injective}
use halo2_gpu.Common.Count.{position, position_push}
use halo2_gpu.Circuit.{Rotation}
use halo2_gpu.Circuit.Column.{GpuColumn, GpuAdvice, GpuFixed, GpuInstance}
use halo2_gpu.Circuit.Column.Equal.{
  rotation_eq, pair_eq, advice_eq, fixed_eq, instance_eq, column_eq,
}
use halo2_gpu.Circuit.System.{GpuConstraintSystem}
use halo2_gpu.Circuit.System.Queries.{
  increment, query_fixed_index, query_advice_index, query_instance_index, register_advice,
}
use halo2_gpu.Circuit.System.Indexed.{Extends-refl, Grows, Grows-refl, Grows-trans}
use halo2_gpu.Circuit.System.Counted.{
  AllOnce-push, IsCounted, increment-length, increment_get, increment_total, on_column-append,
  query_index_lem,
}

module _ {ℓ} {F : Type ℓ} (s : GpuConstraintSystem F) where
  -- The new system finds the query at the index, and keeps the lists and their counts.
  abbrev FixedAt : GpuColumn GpuFixed → Rotation → ℕ × GpuConstraintSystem F → Type 0
  FixedAt column at (i, t) =
      Grows s t × (position t.fixed_queries (column, at) ≡ some i) × (IsCounted s → IsCounted t)

  pub query_fixed_index_lem :
      (column : GpuColumn GpuFixed) (at : Rotation)
      → FixedAt column at (query_fixed_index s column at)
  unfolding query_fixed_index
  query_fixed_index_lem column at =
      let (g, p, o) = query_index_lem s.fixed_queries (column, at) in
      (
        record {
          fixed_grow = g;
          advice_grow = Extends-refl s.advice_queries;
          instance_grow = Extends-refl s.instance_queries;
        },
        p,
        λ v. record {
          fixed_once = o v.fixed_once;
          advice_once = v.advice_once;
          instance_once = v.instance_once;
          tally = v.tally;
          beyond = v.beyond;
        },
      )

  abbrev InstanceAt : GpuColumn GpuInstance → Rotation → ℕ × GpuConstraintSystem F → Type 0
  InstanceAt column at (i, t) =
      Grows s t × (position t.instance_queries (column, at) ≡ some i) × (IsCounted s → IsCounted t)

  pub query_instance_index_lem :
      (column : GpuColumn GpuInstance) (at : Rotation)
      → InstanceAt column at (query_instance_index s column at)
  unfolding query_instance_index
  query_instance_index_lem column at =
      let (g, p, o) = query_index_lem s.instance_queries (column, at) in
      (
        record {
          fixed_grow = Extends-refl s.fixed_queries;
          advice_grow = Extends-refl s.advice_queries;
          instance_grow = g;
        },
        p,
        λ v. record {
          fixed_once = v.fixed_once;
          advice_once = v.advice_once;
          instance_once = o v.instance_once;
          tally = v.tally;
          beyond = v.beyond;
        },
      )

  abbrev pub AdviceAt : GpuColumn GpuAdvice → Rotation → ℕ × GpuConstraintSystem F → Type 0
  AdviceAt column at (i, t) =
      Grows s t
      × (position t.advice_queries (column, at) ≡ some i)
      × (length t.num_advice_queries ≡ length s.num_advice_queries)
      × (IsCounted s → IsCounted t)

  module _ (column : GpuColumn GpuAdvice) (at : Rotation) (counts : List ℕ)
      (p : position s.advice_queries (column, at) ≡ none)
      (q : increment s.num_advice_queries column.index ≡ some counts) where
    pushed : GpuConstraintSystem F
    pushed = record s {
      advice_queries = s.advice_queries ++ (column, at) ∷ [];
      num_advice_queries = counts;
    }

    push_advice : AdviceAt column at (length s.advice_queries, pushed)
    unfolding pushed
    push_advice =
        let (l, b) = increment-length s.num_advice_queries counts column.index q in
        let grown = on_column-append in
        (
          record {
            fixed_grow = Extends-refl s.fixed_queries;
            advice_grow = ((column, at) ∷ [], refl);
            instance_grow = Extends-refl s.instance_queries;
          },
          position_push s.advice_queries (column, at) p,
          l,
          λ v. record {
            fixed_once = v.fixed_once;
            advice_once = AllOnce-push s.advice_queries (column, at) p v.advice_once;
            instance_once = v.instance_once;
            tally = λ c m h.
                let (n, g, e) = increment_get s.num_advice_queries counts column.index c m q h in
                omega (
                  arith,
                  e,
                  v.tally c n g,
                  on_column-append c s.advice_queries ((column, at) ∷ []),
                );
            beyond = λ c h. ground (
              arith,
              v.beyond c (omega (arith, h, l)),
              b,
              l,
              h,
              on_column-append c s.advice_queries ((column, at) ∷ []),
            );
          },
        )

  register_advice_lem :
      (column : GpuColumn GpuAdvice) (at : Rotation) (o : Option ℕ)
      → position s.advice_queries (column, at) ≡ o
      → (r : ℕ × GpuConstraintSystem F) → register_advice s (column, at) o ≡ some r
      → AdviceAt column at r
  unfolding pushed
  register_advice_lem column at (some i) p r h =
      subst (AdviceAt column at) (some-injective _ r h) (Grows-refl s, p, refl, (λ v. v))
  register_advice_lem column at none p r h =
      let (counts, q, k) = >>=-eq-some (increment s.num_advice_queries column.index) _ h in
      subst (AdviceAt column at) (some-injective _ r k) (push_advice column at counts p q)

  -- Where it succeeds.
  pub query_advice_index_lem :
      (column : GpuColumn GpuAdvice) (at : Rotation) (r : ℕ × GpuConstraintSystem F)
      → query_advice_index s column at ≡ some r
      → AdviceAt column at r
  unfolding query_advice_index
  query_advice_index_lem column at r h = register_advice_lem column at _ refl r h

  register_advice_total :
      (column : GpuColumn GpuAdvice) (at : Rotation) (o : Option ℕ)
      → column.index < length s.num_advice_queries
      → (r : ℕ × GpuConstraintSystem F) × (register_advice s (column, at) o ≡ some r)
  register_advice_total column at (some i) h = ((i, s), refl)
  register_advice_total column at none h =
      let (counts, q) = increment_total s.num_advice_queries column.index h in
      (
        (
          length s.advice_queries,
          record s {
            advice_queries = s.advice_queries ++ (column, at) ∷ [];
            num_advice_queries = counts;
          },
        ),
        rw (q),
      )

  pub query_advice_index_total :
      (column : GpuColumn GpuAdvice) (at : Rotation)
      → column.index < length s.num_advice_queries
      → (r : ℕ × GpuConstraintSystem F) × (query_advice_index s column at ≡ some r)
  unfolding query_advice_index
  query_advice_index_total column at h = register_advice_total column at _ h

-- The systems that queries lead to.
pub data Queried {ℓ} {F : Type ℓ} (s : GpuConstraintSystem F) : GpuConstraintSystem F → Type ℓ where
  itself : Queried s s
  by_fixed :
      {t : GpuConstraintSystem F} (column : GpuColumn GpuFixed) (at : Rotation)
      → Queried s t
      → Queried s (query_fixed_index t column at).1
  by_advice :
      {t u : GpuConstraintSystem F} (column : GpuColumn GpuAdvice) (at : Rotation) (i : ℕ)
      → Queried s t
      → query_advice_index t column at ≡ some (i, u)
      → Queried s u
  by_instance :
      {t : GpuConstraintSystem F} (column : GpuColumn GpuInstance) (at : Rotation)
      → Queried s t
      → Queried s (query_instance_index t column at).1

module _ {ℓ} {F : Type ℓ} where
  pub Queried-trans : {s t u : GpuConstraintSystem F} → Queried s t → Queried t u → Queried s u
  Queried-trans q itself = q
  Queried-trans q (by_fixed column at h) = by_fixed column at (Queried-trans q h)
  Queried-trans q (by_advice column at i h e) = by_advice column at i (Queried-trans q h) e
  Queried-trans q (by_instance column at h) = by_instance column at (Queried-trans q h)

  pub Queried-Grows : {s t : GpuConstraintSystem F} → Queried s t → Grows s t
  Queried-Grows itself = Grows-refl _
  Queried-Grows (by_fixed {t = t} column at h) =
      Grows-trans _ t _ (Queried-Grows h) (query_fixed_index_lem t column at).0
  Queried-Grows (by_advice {t = t} {u = u} column at i h e) =
      Grows-trans _ t _ (Queried-Grows h) (query_advice_index_lem t column at (i, u) e).0
  Queried-Grows (by_instance {t = t} column at h) =
      Grows-trans _ t _ (Queried-Grows h) (query_instance_index_lem t column at).0

  pub Queried-IsCounted : {s t : GpuConstraintSystem F} → Queried s t → IsCounted s → IsCounted t
  Queried-IsCounted itself v = v
  Queried-IsCounted (by_fixed {t = t} column at h) v =
      (query_fixed_index_lem t column at).2 (Queried-IsCounted h v)
  Queried-IsCounted (by_advice {t = t} {u = u} column at i h e) v =
      (query_advice_index_lem t column at (i, u) e).3 (Queried-IsCounted h v)
  Queried-IsCounted (by_instance {t = t} column at h) v =
      (query_instance_index_lem t column at).2 (Queried-IsCounted h v)
