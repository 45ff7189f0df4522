-- ===== src/Circuit/System/Equality.antt =====
-- halo2_proofs/src/plonk/circuit.rs: `enable_equality` and `enable_constant`.
use halo2_gpu.Common.{
  ℕ, ◌≡◌, refl, ap, subst, Bool, true, false, none, some, List, [], ◌∷◌, ◌++◌, >>=-eq-some,
  if◌then◌else◌, Bool-cases, ◌⊎◌, inl, inr, arith,
}
use mathlib.Core.Option.{some-injective}
use halo2_gpu.Common.Count.{◌≟◌, contains, contains-append, position, ≟_refl}
use halo2_gpu.Circuit.{Rotation}
use halo2_gpu.Circuit.Column.{
  GpuColumn, GpuAny, any_advice, any_fixed, any_instance, GpuAdvice, GpuFixed, GpuInstance,
  the_fixed, the_instance, from_column, from_fixed, try_advice, try_fixed, try_instance,
}
use halo2_gpu.Circuit.Column.Equal.{
  nat_eq, rotation_eq, pair_eq, any_eq, advice_eq, fixed_eq, instance_eq, column_eq,
}
use halo2_gpu.Circuit.System.{GpuConstraintSystem}
use halo2_gpu.Circuit.System.Queries.{
  query_fixed_index, query_any_index, get_any_query_index, get_advice_query_index,
  get_fixed_query_index, get_instance_query_index,
}
use halo2_gpu.Circuit.System.Configure.{cur, enable_equality, enable_constant}
use halo2_gpu.Circuit.System.Indexed.{Grows, Extends-refl}
use halo2_gpu.Circuit.System.Counted.{AllOnce, AllOnce-push}
use halo2_gpu.Circuit.System.Register.{
  Queried, itself, by_fixed, by_advice, by_instance, query_fixed_index_lem, query_advice_index_lem,
  query_instance_index_lem,
}
use halo2_gpu.Circuit.System.Valid.{
  AllOf, get_any-Grows, AllOf-push, IsQueried, IsReferenced, Referenced, Referenced-Grows, IsValid,
}
use halo2_gpu.Permutation.Argument.{Argument, add_column}
use halo2_gpu.Circuit.System.Kept.{Queried-IsValid}

module _ {ℓ} {F : Type ℓ} where
  -- A query of a column of any type.
  abbrev AnyAt :
      GpuConstraintSystem F → GpuColumn GpuAny → Rotation → ℕ × GpuConstraintSystem F → Type ℓ
  AnyAt s c at r = Queried s r.1 × (get_any_query_index r.1 c at ≡ some r.0)

  query_as_lem :
      (s : GpuConstraintSystem F) (n : ℕ) (t : GpuAny) (at : Rotation)
      (r : ℕ × GpuConstraintSystem F)
      → query_any_index s (record { index = n; column_type = t }) at ≡ some r
      → AnyAt s (record { index = n; column_type = t }) at r
  unfolding query_any_index get_any_query_index try_advice try_fixed try_instance
      get_advice_query_index get_fixed_query_index get_instance_query_index
  query_as_lem s n (any_advice a) at r h =
      let column : GpuColumn GpuAdvice = record { index = n; column_type = a } in
      (by_advice column at r.0 itself h, (query_advice_index_lem s column at r h).1)
  query_as_lem s n any_fixed at r h =
      let column : GpuColumn GpuFixed = record { index = n; column_type = the_fixed } in
      subst (AnyAt s (record { index = n; column_type = any_fixed }) at) (some-injective _ r h)
        (by_fixed column at itself, (query_fixed_index_lem s column at).1)
  query_as_lem s n any_instance at r h =
      let column : GpuColumn GpuInstance = record { index = n; column_type = the_instance } in
      subst (AnyAt s (record { index = n; column_type = any_instance }) at) (some-injective _ r h)
        (by_instance column at itself, (query_instance_index_lem s column at).1)

  pub query_any_index_lem :
      (s : GpuConstraintSystem F) (c : GpuColumn GpuAny) (at : Rotation)
      (r : ℕ × GpuConstraintSystem F)
      → query_any_index s c at ≡ some r
      → AnyAt s c at r
  query_any_index_lem s c at r h = query_as_lem s c.index c.column_type at r h

contains-position :
    (cs : List (GpuColumn GpuAny)) (c : GpuColumn GpuAny)
    → contains cs c ≡ false
    → position cs c ≡ none
contains-position [] c h = refl
contains-position (d ∷ ds) c h =
    let f : (d ≟ c) ≡ false = ground arith in
    let g : contains ds c ≡ false = ground arith in rw (f, contains-position ds c g)

-- The permutation's columns, each once.
add_column_once :
    (p : Argument) (c : GpuColumn GpuAny) → AllOnce p.columns → AllOnce (add_column p c).columns
unfolding add_column
add_column_once p c o = elim (Bool-cases (contains p.columns c)) [
  | inl t ↦ rw (t) o
  | inr f ↦ rw (f) (AllOnce-push p.columns c (contains-position p.columns c f) o)
]

add_column_keeps :
    (p : Argument) (c d : GpuColumn GpuAny)
    → contains p.columns d ≡ true
    → contains (add_column p c).columns d ≡ true
unfolding add_column
add_column_keeps p c d h = elim (Bool-cases (contains p.columns c)) [
  | inl t ↦ rw (t) h
  | inr f ↦ rw (f) (ground (arith, contains-append p.columns (c ∷ []) d))
]

add_column_has : (p : Argument) (c : GpuColumn GpuAny) → contains (add_column p c).columns c ≡ true
unfolding add_column
add_column_has p c = elim (Bool-cases (contains p.columns c)) [
  | inl t ↦ rw (t) t
  | inr f ↦ rw (f) (ground (arith, contains-append p.columns (c ∷ []) c, ≟_refl c))
]

add_column-AllOf {κ} :
    (P : GpuColumn GpuAny → Type κ) (p : Argument) (c : GpuColumn GpuAny)
    → AllOf P p.columns
    → P c
    → AllOf P (add_column p c).columns
unfolding add_column
add_column-AllOf P p c h k = elim (Bool-cases (contains p.columns c)) [
  | inl t ↦ rw (t) h
  | inr f ↦ rw (f) (AllOf-push P p.columns c h k)
]

pushed_constant :
    (cs : List (GpuColumn GpuFixed)) (c d : GpuColumn GpuFixed)
    → contains (cs ++ c ∷ []) d ≡ true
    → (contains cs d ≡ true) ⊎ (from_column from_fixed c ≡ from_column from_fixed d)
pushed_constant cs c d h = elim (Bool-cases (contains cs d)) [
  | inl t ↦ inl t
  | inr f ↦ inr (
      ap (from_column from_fixed)
        ((column_eq.beq_iff c d).0 (ground (arith, contains-append cs (c ∷ []) d))))
]

if_cases {ℓ} : {A : Type ℓ} (b : Bool) (x y z : A) → (if b then x else y) ≡ z → (x ≡ z) ⊎ (y ≡ z)
if_cases true x y z h = inl h
if_cases false x y z h = inr h

module _ {ℓ} {F : Type ℓ} where
  -- The columns of constants are among those of the permutation, but for the column `c`.
  with_column :
      (s : GpuConstraintSystem F) (c : GpuColumn GpuAny) (constants : List (GpuColumn GpuFixed))
      → Referenced s s.gates s.lookups s.permutation s.constants
      → IsQueried s c
      → ((d : GpuColumn GpuFixed)
          → contains constants d ≡ true
          → (contains s.constants d ≡ true) ⊎ (c ≡ from_column from_fixed d))
      → IsReferenced (record s { permutation = add_column s.permutation c; constants = constants })
  with_column s c constants v q k =
      let t : GpuConstraintSystem F = record s {
        permutation = add_column s.permutation c;
        constants = constants;
      } in
      let g : Grows s t = record {
        fixed_grow = Extends-refl s.fixed_queries;
        advice_grow = Extends-refl s.advice_queries;
        instance_grow = Extends-refl s.instance_queries;
      } in
      let w = Referenced-Grows s t s.gates s.lookups s.permutation s.constants g v in
      record {
        gates_indexed = w.gates_indexed;
        lookups_indexed = w.lookups_indexed;
        permuted =
            add_column-AllOf (IsQueried t) s.permutation c w.permuted
              (q.0, get_any-Grows s t c cur q.0 g q.1);
        columns_once = add_column_once s.permutation c w.columns_once;
        constants_permuted = λ d h. elim (k d h) [
          | inl p ↦
              add_column_keeps s.permutation c (from_column from_fixed d) (w.constants_permuted d p)
          | inr p ↦
              subst (λ z. contains (add_column s.permutation c).columns z ≡ true) p
                (add_column_has s.permutation c)
        ];
      }

  with_column-IsValid :
      (s : GpuConstraintSystem F) (c : GpuColumn GpuAny) (constants : List (GpuColumn GpuFixed))
      → IsValid s
      → IsQueried s c
      → ((d : GpuColumn GpuFixed)
          → contains constants d ≡ true
          → (contains s.constants d ≡ true) ⊎ (c ≡ from_column from_fixed d))
      → IsValid (record s { permutation = add_column s.permutation c; constants = constants })
  with_column-IsValid s c constants v q k = record {
    counted = v.counted;
    phased = v.phased;
    referenced = with_column s c constants v.referenced q k;
  }

  pub enable_equality-IsValid :
      (s t : GpuConstraintSystem F) (c : GpuColumn GpuAny)
      → enable_equality s c ≡ some t
      → IsValid s
      → IsValid t
  unfolding enable_equality
  enable_equality-IsValid s t c h v =
      let (r, p, h') = >>=-eq-some (query_any_index s c cur) _ h in
      let (q, g) = query_any_index_lem s c cur r p in
      subst IsValid (some-injective _ t h') (
        with_column-IsValid r.1 c (r.1).constants (Queried-IsValid s r.1 q v) (r.0, g)
          (λ d k. inl k))

  new_constant :
      (s t : GpuConstraintSystem F) (c : GpuColumn GpuFixed)
      → enable_equality (record s { constants = s.constants ++ c ∷ [] }) (from_column from_fixed c)
        ≡ some t
      → IsValid s
      → IsValid t
  unfolding enable_equality query_any_index try_fixed query_fixed_index get_any_query_index
      get_fixed_query_index
  new_constant s t c h v =
      let column : GpuColumn GpuFixed = record { index = c.index; column_type = the_fixed } in
      let r = query_fixed_index s column cur in
      let (g, p, _) = query_fixed_index_lem s column cur in
      subst IsValid (some-injective _ t h) (
        with_column-IsValid r.1 (from_column from_fixed c) (s.constants ++ c ∷ [])
          (Queried-IsValid s r.1 (by_fixed column cur itself) v) (r.0, p)
          (λ d k. pushed_constant s.constants c d k))

  pub enable_constant-IsValid :
      (s t : GpuConstraintSystem F) (c : GpuColumn GpuFixed)
      → enable_constant s c ≡ some t
      → IsValid s
      → IsValid t
  unfolding enable_constant
  enable_constant-IsValid s t c h v =
      elim (if_cases (contains s.constants c) (some s) _ (some t) h) [
        | inl k ↦ subst IsValid (some-injective s t k) v
        | inr k ↦ new_constant s t c k v
      ]
