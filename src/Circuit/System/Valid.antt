-- ===== src/Circuit/System/Valid.antt =====
-- halo2_proofs/src/plonk/circuit.rs: when a constraint system is well formed: what its phases,
-- gates, lookups and permutation columns refer to.
use halo2_gpu.Common.{ℕ, suc, ◌≤◌, ◌≡◌, true, some, List, [], ◌∷◌, ◌++◌, length}
use halo2_gpu.Common.Count.{contains}
use halo2_gpu.Circuit.{Phase, Rotation}
use halo2_gpu.Circuit.Column.{
  GpuColumn, GpuAny, any_advice, any_fixed, any_instance, GpuFixed, from_column, from_fixed,
  try_advice, try_fixed, try_instance,
}
use halo2_gpu.Circuit.Column.Equal.{
  nat_eq, rotation_eq, pair_eq, any_eq, advice_eq, fixed_eq, instance_eq, column_eq,
}
use halo2_gpu.Circuit.System.{GpuConstraintSystem, GpuGate}
use halo2_gpu.Circuit.System.Queries.{
  get_any_query_index, get_advice_query_index, get_fixed_query_index, get_instance_query_index,
}
use halo2_gpu.Circuit.System.Configure.{cur}
use halo2_gpu.Circuit.System.Indexed.{Grows, IsIndexed, IsIndexed-Grows, position-Extends}
use halo2_gpu.Circuit.System.Counted.{IsCounted, AllOnce}
use halo2_gpu.Lookup.{Argument}
use halo2_gpu.Permutation.Argument.{Argument as PermutationArgument}

abbrev pub AllOf {ℓ κ} : {A : Type ℓ} → (A → Type κ) → List A → Type κ
AllOf p [] = Unit
AllOf p (x ∷ xs) = p x × AllOf p xs

module _ {ℓ κ} {A : Type ℓ} where
  pub AllOf-map {ρ} :
      (p : A → Type κ) (q : A → Type ρ)
      → ((x : A) → p x → q x)
      → (xs : List A) → AllOf p xs
      → AllOf q xs
  AllOf-map p q f [] h = tt
  AllOf-map p q f (x ∷ xs) h = (f x h.0, AllOf-map p q f xs h.1)

  pub AllOf-push :
      (p : A → Type κ) (xs : List A) (x : A) → AllOf p xs → p x → AllOf p (xs ++ x ∷ [])
  AllOf-push p [] x h k = (k, tt)
  AllOf-push p (y ∷ ys) x h k = (h.0, AllOf-push p ys x h.1 k)

-- Every advice column and every challenge has a phase; a phase is used only after the one before
-- it, and a challenge only after a phase with a column.
pub record Phased (columns challenges : List Phase) (num_columns num_challenges num_counts : ℕ)
    : Type 0 where
  pub columns_length : length columns ≡ num_columns
  pub challenges_length : length challenges ≡ num_challenges
  pub counts_length : num_counts ≡ num_columns
  pub columns_closed : (p : Phase) → contains columns (suc p) ≡ true → contains columns p ≡ true
  pub challenges_after : (p : Phase) → contains challenges p ≡ true → contains columns p ≡ true

module _ {ℓ} {F : Type ℓ} where
  abbrev pub IsPhased : GpuConstraintSystem F → Type 0
  IsPhased s =
      Phased s.advice_column_phase s.challenge_phase s.num_advice_columns s.num_challenges
        (length s.num_advice_queries)

  -- A gate has a polynomial, and all of its queries have their index.
  abbrev pub GateIndexed : GpuConstraintSystem F → GpuGate F → Type 0
  GateIndexed s g = (1 ≤ length g.polys) × AllOf (IsIndexed s) g.polys

  -- A lookup has as many inputs as table expressions, and all of its queries have their index.
  abbrev pub LookupIndexed : GpuConstraintSystem F → Argument F → Type 0
  LookupIndexed s l =
      (length l.input_expressions ≡ length l.table_expressions)
      × AllOf (IsIndexed s) l.input_expressions
      × AllOf (IsIndexed s) l.table_expressions

  -- The column is queried at the current row.
  abbrev pub IsQueried : GpuConstraintSystem F → GpuColumn GpuAny → Type 0
  IsQueried s c = (i : ℕ) × (get_any_query_index s c cur ≡ some i)

  pub record Referenced (s : GpuConstraintSystem F) (gates : List (GpuGate F))
      (lookups : List (Argument F)) (permutation : PermutationArgument)
      (constants : List (GpuColumn GpuFixed)) : Type 0 where
    pub gates_indexed : AllOf (GateIndexed s) gates
    pub lookups_indexed : AllOf (LookupIndexed s) lookups
    pub permuted : AllOf (IsQueried s) permutation.columns
    pub columns_once : AllOnce permutation.columns
    pub constants_permuted :
        (c : GpuColumn GpuFixed)
        → contains constants c ≡ true
        → contains permutation.columns (from_column from_fixed c) ≡ true

  get_as-Grows :
      (s t : GpuConstraintSystem F) (n : ℕ) (c : GpuAny) (at : Rotation) (i : ℕ)
      → Grows s t
      → get_any_query_index s (record { index = n; column_type = c }) at ≡ some i
      → get_any_query_index t (record { index = n; column_type = c }) at ≡ some i
  unfolding get_any_query_index get_advice_query_index get_fixed_query_index
      get_instance_query_index try_advice try_fixed try_instance
  get_as-Grows s t n (any_advice a) at i g h =
      position-Extends s.advice_queries t.advice_queries _ i g.advice_grow h
  get_as-Grows s t n any_fixed at i g h =
      position-Extends s.fixed_queries t.fixed_queries _ i g.fixed_grow h
  get_as-Grows s t n any_instance at i g h =
      position-Extends s.instance_queries t.instance_queries _ i g.instance_grow h

  pub get_any-Grows :
      (s t : GpuConstraintSystem F) (c : GpuColumn GpuAny) (at : Rotation) (i : ℕ)
      → Grows s t
      → get_any_query_index s c at ≡ some i
      → get_any_query_index t c at ≡ some i
  get_any-Grows s t c at i g h = get_as-Grows s t c.index c.column_type at i g h

  pub Referenced-Grows :
      (s t : GpuConstraintSystem F) (gates : List (GpuGate F)) (lookups : List (Argument F))
      (permutation : PermutationArgument) (constants : List (GpuColumn GpuFixed))
      → Grows s t
      → Referenced s gates lookups permutation constants
      → Referenced t gates lookups permutation constants
  Referenced-Grows s t gates lookups permutation constants g r =
      let indexed = AllOf-map (IsIndexed s) (IsIndexed t) (λ e. IsIndexed-Grows s t e g) in
      record {
        gates_indexed =
            AllOf-map (GateIndexed s) (GateIndexed t) (λ x h. (h.0, indexed x.polys h.1)) gates
              r.gates_indexed;
        lookups_indexed =
            AllOf-map (LookupIndexed s) (LookupIndexed t)
              (λ l h. (h.0, indexed l.input_expressions h.1, indexed l.table_expressions h.2))
              lookups r.lookups_indexed;
        permuted =
            AllOf-map (IsQueried s) (IsQueried t) (λ c h. (h.0, get_any-Grows s t c cur h.0 g h.1))
              permutation.columns r.permuted;
        columns_once = r.columns_once;
        constants_permuted = r.constants_permuted;
      }

  abbrev pub IsReferenced : GpuConstraintSystem F → Type 0
  IsReferenced s = Referenced s s.gates s.lookups s.permutation s.constants

  pub record IsValid (s : GpuConstraintSystem F) : Type 0 where
    pub counted : IsCounted s
    pub phased : IsPhased s
    pub referenced : IsReferenced s
