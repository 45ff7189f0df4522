-- ===== src/Circuit/System/Allocated.antt =====
-- halo2_proofs/src/plonk/circuit.rs: the allocation of columns, selectors and challenges keeps a
-- constraint system well formed.
use halo2_gpu.Common.{
  ℕ, zero, suc, ◌+◌, ◌≡◌, refl, sym, ap, ◌∙◌, subst, Bool, true, false, Option, none, some, List,
  [], ◌∷◌, ◌++◌, length, length-append, get_elem?, if◌then◌else◌, Bool-cases, ◌⊎◌, inl, inr, arith,
}
use mathlib.Core.Option.{some-injective}
use halo2_gpu.Common.Count.{contains, contains-append}
use halo2_gpu.Circuit.{Phase, GpuChallenge}
use halo2_gpu.Circuit.Column.{GpuColumn, GpuAdvice}
use halo2_gpu.Circuit.Column.Equal.{nat_eq}
use halo2_gpu.Circuit.System.{GpuConstraintSystem, default}
use halo2_gpu.Circuit.System.Allocate.{
  selector, complex_selector, fixed_column, instance_column, prev, previous_exists,
  assert_phase_exists, advice_column_in, challenge_usable_after,
}
use halo2_gpu.Circuit.System.Rows.{set_minimum_degree}
use halo2_gpu.Circuit.System.Indexed.{Grows, Extends, Extends-refl}
use halo2_gpu.Circuit.System.Counted.{IsCounted}
use halo2_gpu.Circuit.System.Valid.{IsValid, IsPhased, Referenced-Grows}

get-push :
    (ns : List ℕ) (x c n : ℕ)
    → get_elem? (ns ++ x ∷ []) c ≡ some n
    → (get_elem? ns c ≡ some n) ⊎ ((c ≡ length ns) × (n ≡ x))
get-push [] x zero n h = inr (refl, sym (some-injective x n h))
get-push [] x (suc c) n h = cc
get-push (m ∷ ns) x zero n h = inl h
get-push (m ∷ ns) x (suc c) n h = elim (get-push ns x c n h) [
  | inl p ↦ inl p
  | inr (p, q) ↦ inr (ap suc p, q)
]

contains-push :
    (ps : List Phase) (p q : Phase)
    → contains (ps ++ q ∷ []) p ≡ true
    → (contains ps p ≡ true) ⊎ (q ≡ p)
contains-push ps p q h = elim (Bool-cases (contains ps p)) [
  | inl t ↦ inl t
  | inr f ↦ inr (ground (arith, contains-append ps (q ∷ []) p))
]

contains_later :
    (ps : List Phase) (p q : Phase) → contains ps p ≡ true → contains (ps ++ q ∷ []) p ≡ true
contains_later ps p q h = ground (arith, contains-append ps (q ∷ []) p)

unless_absent {κ} :
    {A : Type κ} (b : Bool) (x y : A) → (if b then some x else none) ≡ some y → (b ≡ true) × (x ≡ y)
unless_absent true x y h = (refl, some-injective x y h)
unless_absent false x y h = cc

module _ {ℓ} {F : Type ℓ} where
  pub default-IsValid : IsValid (default {F = F})
  unfolding default
  default-IsValid = record {
    counted = record {
      fixed_once = λ a. omega arith;
      advice_once = λ a. omega arith;
      instance_once = λ a. omega arith;
      tally = λ c n h. absurd (cc);
      beyond = λ c h. refl;
    };
    phased = record {
      columns_length = refl;
      challenges_length = refl;
      counts_length = refl;
      columns_closed = λ p h. absurd (cc);
      challenges_after = λ p h. absurd (cc);
    };
    referenced = record {
      gates_indexed = tt;
      lookups_indexed = tt;
      permuted = tt;
      columns_once = λ a. omega arith;
      constants_permuted = λ c h. absurd (cc);
    };
  }

  -- The lists of queries are the same.
  pub Grows-same :
      (s t : GpuConstraintSystem F)
      → s.fixed_queries ≡ t.fixed_queries
      → s.advice_queries ≡ t.advice_queries
      → s.instance_queries ≡ t.instance_queries
      → Grows s t
  Grows-same s t f a i = record {
    fixed_grow = subst (Extends s.fixed_queries) f (Extends-refl s.fixed_queries);
    advice_grow = subst (Extends s.advice_queries) a (Extends-refl s.advice_queries);
    instance_grow = subst (Extends s.instance_queries) i (Extends-refl s.instance_queries);
  }

  -- Counters that nothing else refers to.
  module _ (s : GpuConstraintSystem F) (v : IsValid s) (selectors fixed instances : ℕ)
      (degree : Option ℕ) where
    counters : GpuConstraintSystem F
    counters = record s {
      num_selectors = selectors;
      num_fixed_columns = fixed;
      num_instance_columns = instances;
      minimum_degree = degree;
    }

    counters-IsValid : IsValid counters
    unfolding counters
    counters-IsValid = record {
      counted = v.counted;
      phased = v.phased;
      referenced =
          Referenced-Grows s counters s.gates s.lookups s.permutation s.constants
            (Grows-same s counters refl refl refl) v.referenced;
    }

  module _ (s : GpuConstraintSystem F) (v : IsValid s) where
    pub selector-IsValid : IsValid (selector s).1
    unfolding selector counters
    selector-IsValid =
        counters-IsValid s v (s.num_selectors + 1) s.num_fixed_columns s.num_instance_columns
          s.minimum_degree

    pub complex_selector-IsValid : IsValid (complex_selector s).1
    unfolding complex_selector counters
    complex_selector-IsValid =
        counters-IsValid s v (s.num_selectors + 1) s.num_fixed_columns s.num_instance_columns
          s.minimum_degree

    pub fixed_column-IsValid : IsValid (fixed_column s).1
    unfolding fixed_column counters
    fixed_column-IsValid =
        counters-IsValid s v s.num_selectors (s.num_fixed_columns + 1) s.num_instance_columns
          s.minimum_degree

    pub instance_column-IsValid : IsValid (instance_column s).1
    unfolding instance_column counters
    instance_column-IsValid =
        counters-IsValid s v s.num_selectors s.num_fixed_columns (s.num_instance_columns + 1)
          s.minimum_degree

    pub set_minimum_degree-IsValid : (d : ℕ) → IsValid (set_minimum_degree s d)
    unfolding set_minimum_degree counters
    set_minimum_degree-IsValid d =
        counters-IsValid s v s.num_selectors s.num_fixed_columns s.num_instance_columns (some d)

    column_added : Phase → GpuConstraintSystem F
    column_added phase = record s {
      num_advice_columns = s.num_advice_columns + 1;
      num_advice_queries = s.num_advice_queries ++ 0 ∷ [];
      advice_column_phase = s.advice_column_phase ++ phase ∷ [];
    }

    column-IsCounted : (phase : Phase) → IsCounted (column_added phase)
    unfolding column_added
    column-IsCounted phase = record {
      fixed_once = v.counted.fixed_once;
      advice_once = v.counted.advice_once;
      instance_once = v.counted.instance_once;
      tally = λ c n h. elim (get-push s.num_advice_queries 0 c n h) [
        | inl p ↦ v.counted.tally c n p
        | inr (p, q) ↦ q ∙ sym (v.counted.beyond c (omega (arith, p)))
      ];
      beyond =
          λ c h. v.counted.beyond c (omega (arith, h, length-append s.num_advice_queries (0 ∷ [])));
    }

    column-IsPhased :
        (phase : Phase) → previous_exists s (prev phase) ≡ true → IsPhased (column_added phase)
    unfolding column_added assert_phase_exists
    column-IsPhased phase e =
        let p = v.phased in
        record {
          columns_length =
              omega (arith, p.columns_length, length-append s.advice_column_phase (phase ∷ []));
          challenges_length = p.challenges_length;
          counts_length =
              omega (arith, p.counts_length, length-append s.num_advice_queries (0 ∷ []));
          columns_closed = λ q h. elim (contains-push s.advice_column_phase (suc q) phase h) [
            | inl k ↦ contains_later s.advice_column_phase q phase (p.columns_closed q k)
            | inr k ↦
                contains_later s.advice_column_phase q phase
                  (subst (λ z. previous_exists s (prev z) ≡ true) k e)
          ];
          challenges_after =
              λ q h. contains_later s.advice_column_phase q phase (p.challenges_after q h);
        }

    column-IsValid :
        (phase : Phase) → previous_exists s (prev phase) ≡ true → IsValid (column_added phase)
    unfolding column_added
    column-IsValid phase e = record {
      counted = column-IsCounted phase;
      phased = column-IsPhased phase e;
      referenced =
          Referenced-Grows s (column_added phase) s.gates s.lookups s.permutation s.constants
            (Grows-same s (column_added phase) refl refl refl) v.referenced;
    }

    pub advice_column_in-IsValid :
        (phase : Phase) (r : GpuColumn GpuAdvice × GpuConstraintSystem F)
        → advice_column_in s phase ≡ some r
        → IsValid r.1
    unfolding advice_column_in column_added
    advice_column_in-IsValid phase r h =
        let (e, p) = unless_absent (previous_exists s (prev phase)) _ r h in
        subst (λ (z : GpuColumn GpuAdvice × GpuConstraintSystem F). IsValid z.1) p
          (column-IsValid phase e)

    challenge_added : Phase → GpuConstraintSystem F
    challenge_added phase = record s {
      num_challenges = s.num_challenges + 1;
      challenge_phase = s.challenge_phase ++ phase ∷ [];
    }

    challenge-IsValid :
        (phase : Phase) → assert_phase_exists s phase ≡ true → IsValid (challenge_added phase)
    unfolding challenge_added assert_phase_exists
    challenge-IsValid phase e =
        let p = v.phased in
        record {
          counted = v.counted;
          phased = record {
            columns_length = p.columns_length;
            challenges_length =
                omega (arith, p.challenges_length, length-append s.challenge_phase (phase ∷ []));
            counts_length = p.counts_length;
            columns_closed = p.columns_closed;
            challenges_after = λ q h. elim (contains-push s.challenge_phase q phase h) [
              | inl k ↦ p.challenges_after q k
              | inr k ↦ subst (λ z. contains s.advice_column_phase z ≡ true) k e
            ];
          };
          referenced =
              Referenced-Grows s (challenge_added phase) s.gates s.lookups s.permutation s.constants
                (Grows-same s (challenge_added phase) refl refl refl) v.referenced;
        }

    pub challenge_usable_after-IsValid :
        (phase : Phase) (r : GpuChallenge × GpuConstraintSystem F)
        → challenge_usable_after s phase ≡ some r
        → IsValid r.1
    unfolding challenge_usable_after challenge_added
    challenge_usable_after-IsValid phase r h =
        let (e, p) = unless_absent (assert_phase_exists s phase) _ r h in
        subst (λ (z : GpuChallenge × GpuConstraintSystem F). IsValid z.1) p
          (challenge-IsValid phase e)
