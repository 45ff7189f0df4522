-- ===== src/Evaluation/Sound.antt =====
-- Each method of `GraphEvaluator` keeps the graph's values, and returns a source that reads the
-- value of what was added.
pub mod Emit
pub mod Expression
use halo2_gpu.Common.{
  ℕ, zero, suc, ◌+◌, ◌≡◌, refl, sym, ap, ◌∙◌, subst, Bool, true, false, Option, none, some, List,
  [], ◌∷◌, ◌++◌, length, length-append, get_elem?, map, ◌>>=◌, >>=-eq-some, arith, if◌then◌else◌,
  inl, inr, Option-cases,
}
use mathlib.Core.Option.{some-injective}
use mathlib.Core.List.{map-append}
use halo2_gpu.Common.Int.{ℤ, int_eq, int_eq_iff}
use halo2_gpu.Field.{Field, ◌⊕◌, ◌⊗◌, ◌=?◌}
use halo2_gpu.Circuit.{Rotation}
use halo2_gpu.Evaluation.{
  ValueSource, Calculation, CalculationInfo, GraphEvaluator, find_target, position, add_rotation,
  add_calculation, add_constant, default_graph,
}
use halo2_gpu.Evaluation.Compare.{
  Extends, Extends-append, get_elem?-append_length, get_elem?-map, position_sound,
}
use halo2_gpu.Evaluation.Run.{Inputs, get, evaluate_calculation, get_rotation_idx}
use halo2_gpu.Evaluation.Valid.{
  AtLeast, get_mono, evaluate_calculation_mono, Built, Built-mono, Built-snoc, find_target-Built,
}

-- `add_expression` makes no `Horner`.
abbrev pub IsPlain : Calculation → Type 0
IsPlain (Calculation.horner a ps b) = ⊥
IsPlain _ = Unit

abbrev pub AllPlain : List CalculationInfo → Type 0
AllPlain [] = Unit
AllPlain (info ∷ infos) = IsPlain info.calculation × AllPlain infos

AllPlain-snoc :
    (infos : List CalculationInfo) (info : CalculationInfo)
    → AllPlain infos
    → IsPlain info.calculation
    → AllPlain (infos ++ info ∷ [])
AllPlain-snoc [] info h p = (p, tt)
AllPlain-snoc (i ∷ is) info h p = (h.0, AllPlain-snoc is info h.1 p)

module _ {ℓ} {F : Type ℓ} ⦃f : Field F⦄ (inputs : Inputs F) (idx : ℕ) (rot_scale : ℤ)
    (isize : ℕ) where
  abbrev pub index_of : Rotation → ℕ
  index_of r = get_rotation_idx idx r rot_scale isize

  abbrev pub rows : GraphEvaluator F → List ℕ
  rows g = map index_of g.rotations

  abbrev pub read : GraphEvaluator F → List F → ValueSource → Option F
  read g ints = get inputs (rows g) g.constants ints

  -- `ints` are the values of the intermediates of `g`.
  pub record Valid (g : GraphEvaluator F) (ints : List F) : Type ℓ where
    pub zero_at : get_elem? g.constants 0 ≡ some f.zero
    pub one_at : get_elem? g.constants 1 ≡ some f.one
    pub two_at : get_elem? g.constants 2 ≡ some (f.one ⊕ f.one)
    pub counted : g.num_intermediates ≡ length ints
    pub built : Built inputs (rows g) g.constants g.calculations [] ints
    pub plain : AllPlain g.calculations

  -- What the sources read before they read after.
  pub record Grown (g : GraphEvaluator F) (ints : List F) (g' : GraphEvaluator F) (ints' : List F)
      : Type ℓ where
    pub constants : Extends g.constants g'.constants
    pub rotations : Extends (rows g) (rows g')
    pub intermediates : Extends ints ints'

  pub Grown-refl : (g : GraphEvaluator F) (ints : List F) → Grown g ints g ints
  Grown-refl g ints = record {
    constants = λ i a h. h;
    rotations = λ i a h. h;
    intermediates = λ i a h. h;
  }

  pub Grown-trans :
      (g₁ : GraphEvaluator F) (i₁ : List F) (g₂ : GraphEvaluator F) (i₂ : List F)
      (g₃ : GraphEvaluator F) (i₃ : List F)
      → Grown g₁ i₁ g₂ i₂
      → Grown g₂ i₂ g₃ i₃
      → Grown g₁ i₁ g₃ i₃
  Grown-trans g₁ i₁ g₂ i₂ g₃ i₃ p q = record {
    constants = λ i a h. q.constants i a (p.constants i a h);
    rotations = λ i a h. q.rotations i a (p.rotations i a h);
    intermediates = λ i a h. q.intermediates i a (p.intermediates i a h);
  }

  pub read-Grown :
      (g : GraphEvaluator F) (ints : List F) (g' : GraphEvaluator F) (ints' : List F)
      → Grown g ints g' ints'
      → AtLeast (read g ints) (read g' ints')
  read-Grown g ints g' ints' w =
      get_mono inputs (rows g) (rows g') g.constants g'.constants ints ints' w.rotations w.constants
        w.intermediates

  -- A method returned `r`: the new graph is valid, has grown, and the source reads `v`.
  pub record Outcome (g : GraphEvaluator F) (ints : List F) (r : ValueSource × GraphEvaluator F)
      (v : F) : Type ℓ where
    pub after : List F
    pub valid : Valid r.1 after
    pub grown : Grown g ints r.1 after
    pub reads : read r.1 after r.0 ≡ some v

  -- The graph is as before.
  pub unchanged :
      (g : GraphEvaluator F) (ints : List F) (s : ValueSource) (v : F)
      → Valid g ints
      → read g ints s ≡ some v
      → Outcome g ints (s, g) v
  unchanged g ints s v w h = record {
    after = ints;
    valid = w;
    grown = Grown-refl g ints;
    reads = h;
  }

  pub default-Valid : Valid default_graph []
  unfolding default_graph
  default-Valid = record {
    zero_at = refl;
    one_at = refl;
    two_at = refl;
    counted = refl;
    built = refl;
    plain = tt;
  }

  pub add_constant_lem :
      (g : GraphEvaluator F) (ints : List F) (k : F)
      → Valid g ints
      → Outcome g ints (add_constant g k) k
  unfolding add_constant get
  add_constant_lem g ints k w = elim (Option-cases (position (λ c. c =? k) g.constants)) [
    | inl e ↦
        rw (e, add_constant)
          (record {
            after = ints;
            valid = record {
              zero_at = Extends-append g.constants (k ∷ []) 0 f.zero w.zero_at;
              one_at = Extends-append g.constants (k ∷ []) 1 f.one w.one_at;
              two_at = Extends-append g.constants (k ∷ []) 2 _ w.two_at;
              counted = w.counted;
              built =
                  Built-mono inputs (rows g) (rows g) g.constants (g.constants ++ k ∷ [])
                    g.calculations [] ints (λ i a h. h) (Extends-append g.constants (k ∷ []))
                    w.built;
              plain = w.plain;
            };
            grown = record {
              constants = Extends-append g.constants (k ∷ []);
              rotations = λ i a h. h;
              intermediates = λ i a h. h;
            };
            reads = get_elem?-append_length g.constants [] k;
          })
    | inr (i, e) ↦
        let (c, at, same) = position_sound (λ c. c =? k) g.constants i e in
        rw (e, add_constant)
          (unchanged g ints (ValueSource.constant i) k w (at ∙ ap some ((f.beq_iff c k).0 same)))
  ]

  -- The position that `add_rotation` returned reads the rotated row index.
  pub record Turned (g : GraphEvaluator F) (ints : List F) (r : Rotation) (t : ℕ × GraphEvaluator F)
      : Type ℓ where
    pub valid : Valid t.1 ints
    pub grown : Grown g ints t.1 ints
    pub reads : get_elem? (rows t.1) t.0 ≡ some (index_of r)

  pub add_rotation_lem :
      (g : GraphEvaluator F) (ints : List F) (r : Rotation)
      → Valid g ints
      → Turned g ints r (add_rotation g r)
  unfolding add_rotation
  add_rotation_lem g ints r w = elim (Option-cases (position (λ c. int_eq c r) g.rotations)) [
    | inl e ↦
        let more : Extends (rows g) (map index_of (g.rotations ++ r ∷ [])) =
          subst (Extends (rows g)) (sym (map-append index_of g.rotations (r ∷ [])))
            (Extends-append (rows g) (index_of r ∷ [])) in
        rw (e, add_rotation)
          (record {
            valid = record {
              zero_at = w.zero_at;
              one_at = w.one_at;
              two_at = w.two_at;
              counted = w.counted;
              built =
                  Built-mono inputs (rows g) (map index_of (g.rotations ++ r ∷ [])) g.constants
                    g.constants g.calculations [] ints more (λ i a h. h) w.built;
              plain = w.plain;
            };
            grown = record { constants = λ i a h. h; rotations = more; intermediates = λ i a h. h };
            reads =
                get_elem?-map index_of (g.rotations ++ r ∷ []) (length g.rotations) r
                  (get_elem?-append_length g.rotations [] r);
          })
    | inr (i, e) ↦
        let (c, at, same) = position_sound (λ c. int_eq c r) g.rotations i e in
        rw (e, add_rotation)
          (record {
            valid = w;
            grown = Grown-refl g ints;
            reads =
                get_elem?-map index_of g.rotations i c at
                ∙ ap some (ap index_of ((int_eq_iff c r).0 same));
          })
  ]

  pub add_calculation_lem :
      (g : GraphEvaluator F) (ints : List F) (c : Calculation) (v : F)
      → Valid g ints
      → IsPlain c
      → evaluate_calculation (read g ints) c ≡ some v
      → Outcome g ints (add_calculation g c) v
  unfolding add_calculation get
  add_calculation_lem g ints c v w p h = elim (Option-cases (find_target c g.calculations)) [
    | inl e ↦
        rw (e, add_calculation)
          (record {
            after = ints ++ v ∷ [];
            valid = record {
              zero_at = w.zero_at;
              one_at = w.one_at;
              two_at = w.two_at;
              counted = omega (arith, w.counted, length-append ints (v ∷ []));
              built =
                  Built-snoc inputs (rows g) g.constants g.calculations [] ints c
                    g.num_intermediates v w.built w.counted h;
              plain = AllPlain-snoc g.calculations _ w.plain p;
            };
            grown = record {
              constants = λ i a h. h;
              rotations = λ i a h. h;
              intermediates = Extends-append ints (v ∷ []);
            };
            reads = ap (get_elem? (ints ++ v ∷ [])) w.counted ∙ get_elem?-append_length ints [] v;
          })
    | inr (t, e) ↦
        rw (e, add_calculation)
          (unchanged g ints (ValueSource.intermediate t) v w (
            find_target-Built inputs (rows g) g.constants g.calculations [] ints c t v w.built e h))
  ]
