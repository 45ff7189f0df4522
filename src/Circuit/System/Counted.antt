-- ===== src/Circuit/System/Counted.antt =====
-- halo2_proofs/src/plonk/circuit.rs: the lists of queries hold no query twice, and
-- `num_advice_queries` counts those of the advice columns.
use halo2_gpu.Common.{
  ℕ, zero, suc, ◌+◌, ◌≤◌, ◌<◌, ◌≡◌, refl, sym, ap, ◌∙◌, subst, ◌==◌, none, some, List, [], ◌∷◌,
  ◌++◌, length, get_elem?, if◌then◌else◌, Bool-cases, Option-cases, >>=-eq-some, inl, inr, arith,
}
use mathlib.Core.List.{append-nil}
use mathlib.Core.Option.{some-injective}
use halo2_gpu.Common.Count.{
  Eq, ◌≟◌, position, position_push, position-none, count, count-append, same_le,
}
use halo2_gpu.Circuit.Column.{GpuAdvice, GpuFixed, GpuInstance}
use halo2_gpu.Circuit.Column.Equal.{
  rotation_eq, pair_eq, advice_eq, fixed_eq, instance_eq, column_eq,
}
use halo2_gpu.Circuit.System.{Query, GpuConstraintSystem}
use halo2_gpu.Circuit.System.Queries.{query_index, increment}
use halo2_gpu.Circuit.System.Indexed.{Extends}

-- No element stands twice in the list.
abbrev pub AllOnce {ℓ} : {A : Type ℓ} ⦃e : Eq A⦄ → List A → Type ℓ
AllOnce {A = A} xs = (a : A) → count a xs ≤ 1

pub AllOnce-push {ℓ} :
    {A : Type ℓ} ⦃e : Eq A⦄ (xs : List A) (a : A)
    → position xs a ≡ none
    → AllOnce xs
    → AllOnce (xs ++ a ∷ [])
AllOnce-push ⦃e = e⦄ xs a h o b = elim (Bool-cases (b ≟ a)) [
  | inl t ↦
      let z : count b xs ≡ 0 =
        subst (λ c. count c xs ≡ 0) (sym ((e.beq_iff b a).0 t)) (position-none xs a h) in
      omega (arith, count-append b xs (a ∷ []), z, same_le b a)
  | inr f ↦ ground (arith, count-append b xs (a ∷ []), o b)
]

module _ {ℓ} {C : Type ℓ} ⦃e : Eq C⦄ (qs : List (Query C)) (q : Query C) where
  abbrev Registered : ℕ × List (Query C) → Type ℓ
  Registered r = Extends qs r.1 × (position r.1 q ≡ some r.0) × (AllOnce qs → AllOnce r.1)

  pub query_index_lem : Registered (query_index qs q)
  query_index_lem = elim (Option-cases (position qs q)) [
    | inl p ↦ rw (p) ((q ∷ [], refl), position_push qs q p, AllOnce-push qs q p)
    | inr (i, p) ↦ rw (p) (([], sym (append-nil qs)), p, (λ o. o))
  ]

-- The number of the queries of an advice column.
abbrev pub on_column : ℕ → List (Query GpuAdvice) → ℕ
on_column c [] = 0
on_column c (q ∷ qs) = (if q.0.index == c then 1 else 0) + on_column c qs

pub on_column-append :
    (c : ℕ) (qs rs : List (Query GpuAdvice))
    → on_column c (qs ++ rs) ≡ on_column c qs + on_column c rs
on_column-append c [] rs = omega arith
on_column-append c (q ∷ qs) rs = omega (arith, on_column-append c qs rs)

pub increment_get :
    (ns ms : List ℕ) (i c m : ℕ)
    → increment ns i ≡ some ms
    → get_elem? ms c ≡ some m
    → (n : ℕ) × (get_elem? ns c ≡ some n) × (m ≡ (if i == c then 1 else 0) + n)
increment_get [] ms i c m h g = cc
increment_get (n ∷ ns) ms zero zero m h g = (n, refl, ground arith)
increment_get (n ∷ ns) ms zero (suc c) m h g =
    (m, ap (λ z. get_elem? z (suc c)) (some-injective _ ms h) ∙ g, ground arith)
increment_get (n ∷ ns) ms (suc i) zero m h g =
    let (ks, p, k) = >>=-eq-some (increment ns i) _ h in
    (n, refl, ground (arith, ap (λ z. get_elem? z 0) (some-injective _ ms k), g))
increment_get (n ∷ ns) ms (suc i) (suc c) m h g =
    let (ks, p, k) = >>=-eq-some (increment ns i) _ h in
    let (n', q, e) =
      increment_get ns ks i c m p (ap (λ z. get_elem? z (suc c)) (some-injective _ ms k) ∙ g) in
    (n', q, ground arith)

pub increment-length :
    (ns ms : List ℕ) (i : ℕ) → increment ns i ≡ some ms → (length ms ≡ length ns) × (i < length ns)
increment-length [] ms i h = cc
increment-length (n ∷ ns) ms zero h = (ap length (sym (some-injective _ ms h)), omega arith)
increment-length (n ∷ ns) ms (suc i) h =
    let (ks, p, k) = >>=-eq-some (increment ns i) _ h in
    let (q, l) = increment-length ns ks i p in
    (ap length (sym (some-injective _ ms k)) ∙ ap suc q, omega arith)

pub increment_total :
    (ns : List ℕ) (i : ℕ) → i < length ns → (ms : List ℕ) × (increment ns i ≡ some ms)
increment_total [] i h = absurd (omega arith)
increment_total (n ∷ ns) zero h = ((n + 1) ∷ ns, refl)
increment_total (n ∷ ns) (suc i) h =
    let (ms, p) = increment_total ns i (omega arith) in (n ∷ ms, rw p)

-- The lists of queries hold no query twice, and the counts are those of the advice columns, all of
-- which exist.
pub record Counted (fixed_queries : List (Query GpuFixed)) (advice_queries : List (Query GpuAdvice))
    (instance_queries : List (Query GpuInstance)) (counts : List ℕ) : Type 0 where
  pub fixed_once : AllOnce fixed_queries
  pub advice_once : AllOnce advice_queries
  pub instance_once : AllOnce instance_queries
  pub tally : (c n : ℕ) → get_elem? counts c ≡ some n → n ≡ on_column c advice_queries
  pub beyond : (c : ℕ) → length counts ≤ c → on_column c advice_queries ≡ 0

abbrev pub IsCounted {ℓ} : {F : Type ℓ} → GpuConstraintSystem F → Type 0
IsCounted s = Counted s.fixed_queries s.advice_queries s.instance_queries s.num_advice_queries
