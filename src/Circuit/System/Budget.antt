-- ===== src/Circuit/System/Budget.antt =====
-- halo2_proofs/src/plonk/circuit.rs: what `blinding_factors` and `degree` account for.
use halo2_gpu.Common.{
  ℕ, ◌+◌, ◌-◌, max, min, ◌≤◌, ◌<◌, ◌≡◌, refl, sym, ◌∙◌, subst, true, ◌==◌, leb, Bool-cases, ◌⊎◌,
  inl, inr, ◌↔◌, some, List, [], ◌∷◌, ◌++◌, map, length, arith,
}
use mathlib.Core.Option.{some-injective}
use halo2_gpu.Common.Grid.{get_elem?-some, get_elem?_lt}
use halo2_gpu.Circuit.Expression.{GpuExpression, degree as expression_degree}
use halo2_gpu.Circuit.System.{GpuConstraintSystem, GpuGate}
use halo2_gpu.Circuit.System.Allocate.{unwrap_or}
use halo2_gpu.Circuit.System.Rows.{
  Variable, get_max_degree, lookup_degrees, gate_degrees, degree, blinding_factors,
}
use halo2_gpu.Circuit.System.Counted.{on_column}
use halo2_gpu.Circuit.System.Valid.{AllOf, LookupIndexed}
use halo2_gpu.Circuit.System.Reached.{Reached, Reached-IsValid}
use halo2_gpu.Circuit.System.Phases.{at_least, at_least_cons, le_at_least, at_least_le}
use halo2_gpu.Lookup.{Argument, max_degree, required_degree as lookup_degree}

module _ {ℓ} {F : Type ℓ} (s : GpuConstraintSystem F) (h : Reached s) where
  -- In a constraint system that a configuration reaches, `blinding_factors` is the least number
  -- that is at least five and, for every advice column, at least two more than the number of its
  -- distinct queries: a number is not below it exactly if it meets these bounds.
  pub blinding_factors_iff :
      (k : ℕ)
      → (blinding_factors s ≤ k)
        ↔ ((5 ≤ k) × ((c : ℕ) → c < s.num_advice_columns → on_column c s.advice_queries + 2 ≤ k))
  unfolding blinding_factors
  blinding_factors_iff k =
      let v = Reached-IsValid s h in
      let counts = s.num_advice_queries in
      let len = (v.phased).counts_length in
      let tally = (v.counted).tally in
      (
        λ b. (
          omega (arith, b),
          λ c l.
              (let (n, p) = get_elem?-some counts c (omega (arith, len, l)) in
                omega (arith, b, tally c n p, le_at_least counts c n 1 p)),
        ),
        λ b.
            (let bound = at_least_le counts 1 (k - 2) (omega (arith, b.0)) (λ c n p.
                omega (
                  arith,
                  b.0,
                  tally c n p,
                  b.1 c (omega (arith, get_elem?_lt counts c n p, len)),
                )) in
              omega (arith, b.0, bound)),
      )

abbrev AtMost : ℕ → List ℕ → Type 0
AtMost k = AllOf (λ n. n ≤ k)

at_least-AtMost : (d k : ℕ) (ns : List ℕ) → at_least d ns ≤ k → AtMost k ns
at_least-AtMost d k [] h = tt
at_least-AtMost d k (m ∷ ns) h =
    let b : max m (at_least m ns) ≤ k = subst (λ z. z ≤ k) (at_least_cons d m ns) h in
    (omega (arith, b), at_least-AtMost m k ns (omega (arith, b)))

AtMost-at_least : (d k : ℕ) (ns : List ℕ) → d ≤ k → AtMost k ns → at_least d ns ≤ k
AtMost-at_least d k [] b h = b
AtMost-at_least d k (m ∷ ns) b h =
    omega (arith, at_least_cons d m ns, h.0, AtMost-at_least m k ns h.0 h.1)

module _ {ℓ} {F : Type ℓ} where
  -- The degrees of a gate's polynomials, and those of the later gates.
  split_degrees :
      (k : ℕ) (es : List (GpuExpression F)) (ns : List ℕ)
      → AtMost k (map expression_degree es ++ ns)
      → AllOf (λ e. expression_degree e ≤ k) es × AtMost k ns
  split_degrees k [] ns h = (tt, h)
  split_degrees k (e ∷ es) ns h = let (es', ns') = split_degrees k es ns h.1 in ((h.0, es'), ns')

  abbrev pub GatesAtMost : ℕ → List (GpuGate F) → Type 0
  GatesAtMost k = AllOf (λ (g : GpuGate F). AllOf (λ e. expression_degree e ≤ k) g.polys)

  gate_degrees_lem : (gs : List (GpuGate F)) (k : ℕ) → AtMost k (gate_degrees gs) → GatesAtMost k gs
  gate_degrees_lem [] k h = tt
  gate_degrees_lem (g ∷ gs) k h =
      let (es, ns) = split_degrees k g.polys (gate_degrees gs) h in (es, gate_degrees_lem gs k ns)

  join_degrees :
      (k : ℕ) (es : List (GpuExpression F)) (ns : List ℕ)
      → AllOf (λ e. expression_degree e ≤ k) es
      → AtMost k ns
      → AtMost k (map expression_degree es ++ ns)
  join_degrees k [] ns h h' = h'
  join_degrees k (e ∷ es) ns h h' = (h.0, join_degrees k es ns h.1 h')

  GatesAtMost-AtMost :
      (gs : List (GpuGate F)) (k : ℕ) → GatesAtMost k gs → AtMost k (gate_degrees gs)
  GatesAtMost-AtMost [] k h = tt
  GatesAtMost-AtMost (g ∷ gs) k h =
      join_degrees k g.polys (gate_degrees gs) h.0 (GatesAtMost-AtMost gs k h.1)

  abbrev pub LookupsAtMost : ℕ → List (Argument F) → Type 0
  LookupsAtMost k = AllOf (λ l. (d : ℕ) × (lookup_degree l ≡ some d) × (d ≤ k))

  lookup_degree_total :
      (s : GpuConstraintSystem F) (l : Argument F)
      → LookupIndexed s l
      → (d : ℕ) × (lookup_degree l ≡ some d)
  unfolding lookup_degree
  lookup_degree_total s l h =
      let t : (length l.input_expressions == length l.table_expressions) ≡ true =
        ground (arith, h.0) in
      (max 4 (2 + max_degree 1 l.input_expressions + max_degree 1 l.table_expressions), rw (t))

  lookup_degrees_lem :
      (s : GpuConstraintSystem F) (ls : List (Argument F))
      → AllOf (LookupIndexed s) ls
      → (ds : List ℕ) × (lookup_degrees ls ≡ some ds) × ((k : ℕ) → AtMost k ds ↔ LookupsAtMost k ls)
  lookup_degrees_lem s [] h = ([], refl, (λ k. ((λ b. tt), (λ b. tt))))
  lookup_degrees_lem s (l ∷ ls) h =
      let (d, p) = lookup_degree_total s l h.0 in
      let (ds, q, all) = lookup_degrees_lem s ls h.1 in
      (
        d ∷ ds,
        rw (p, q),
        λ k. (
          λ b. ((d, p, b.0), (all k).0 b.1),
          λ b.
              (let same = some-injective d (b.0).0 (sym p ∙ (b.0).1) in
                (omega (arith, same, (b.0).2), (all k).1 b.1)),
        ),
      )

  -- In a constraint system that a configuration reaches, and where the bound MAX_DEGREE can be
  -- read, `degree` does not panic. It is the least number that is at least the set minimum (one if
  -- none is set) and is either at least MAX_DEGREE, or at least three, the degree of every gate's
  -- polynomial and what every lookup requires: a number is not below it exactly if it meets these
  -- bounds.
  pub degree_lem :
      (s : GpuConstraintSystem F) (var : Variable) (cap : ℕ)
      → Reached s
      → get_max_degree var ≡ some cap
      → (d : ℕ) × (degree var s ≡ some d)
        × ((k : ℕ)
            → (d ≤ k) ↔ (
                (unwrap_or s.minimum_degree 1 ≤ k)
                × ((cap ≤ k) ⊎ ((3 ≤ k) × GatesAtMost k s.gates × LookupsAtMost k s.lookups))))
  unfolding degree
  degree_lem s var cap h p =
      let v = Reached-IsValid s h in
      let (ds, q, all) = lookup_degrees_lem s s.lookups (v.referenced).lookups_indexed in
      let gates = gate_degrees s.gates in
      let needed = max (max 3 (at_least 1 ds)) (at_least 0 gates) in
      (
        max (min needed cap) (unwrap_or s.minimum_degree 1),
        rw (p, q),
        λ k. (
          λ b. (
            omega (arith, b),
            elim (Bool-cases (leb cap k)) [
              | inl t ↦ inl (ground arith)
              | inr f ↦
                  let below : needed ≤ k = ground (arith, b) in
                  inr (
                    omega (arith, below),
                    gate_degrees_lem s.gates k (at_least-AtMost 0 k gates (omega (arith, below))),
                    (all k).0 (at_least-AtMost 1 k ds (omega (arith, below))),
                  )
            ],
          ),
          λ (least, bound). elim bound [
            | inl t ↦ omega (arith, least, t)
            | inr (three, polys, lookups) ↦
                let g =
                  AtMost-at_least 0 k gates (omega arith) (GatesAtMost-AtMost s.gates k polys) in
                let l = AtMost-at_least 1 k ds (omega (arith, three)) ((all k).1 lookups) in
                omega (arith, least, three, g, l)
          ],
        ),
      )
