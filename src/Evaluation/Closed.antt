-- ===== src/Evaluation/Closed.antt =====
-- Running a graph on fresh data leaves the values that its calculations build, and returns the
-- value of the last one.
use halo2_gpu.Common.{
  ℕ, ◌+◌, ◌≡◌, refl, ap, ◌∙◌, none, some, List, [], ◌∷◌, ◌++◌, length, length-append, get_elem?,
  map, arith, false,
}
use mathlib.Core.List.{append-nil, append_assoc}
use halo2_gpu.Common.Int.{ℤ}
use halo2_gpu.Field.{Field}
use halo2_gpu.Evaluation.{
  ValueSource, Calculation, CalculationInfo, GraphEvaluator, find_target, calculation_eq,
  add_calculation,
}
use halo2_gpu.Evaluation.Compare.{Extends-append, get_elem?-append_length}
use halo2_gpu.Evaluation.Run.{
  Inputs, write, replicate, evaluate_calculation, fill_rotations, instance_data, run_calculations,
  last_value, evaluate_graph,
}
use halo2_gpu.Evaluation.Valid.{Built, Built-snoc, get_mono, evaluate_calculation_mono}
use halo2_gpu.Evaluation.Sound.{IsPlain, AllPlain, rows, index_of, read, Valid}

-- A `Horner` is not among the calculations of expressions.
pub find_target-horner :
    (infos : List CalculationInfo) (a b : ValueSource) (ps : List ValueSource)
    → AllPlain infos
    → find_target (Calculation.horner a ps b) infos ≡ none
unfolding find_target
find_target-horner [] a b ps h = refl
find_target-horner (info ∷ infos) a b ps h =
    rw (plain_ne info.calculation h.0) (find_target-horner infos a b ps h.1)
  where
    plain_ne : (c : Calculation) → IsPlain c → calculation_eq c (Calculation.horner a ps b) ≡ false
    plain_ne (Calculation.horner x xs z) p = elim p [ ]
    plain_ne c p = unfold calculation_eq in refl

write_next {ℓ} :
    {A : Type ℓ} (acc rest : List A) (x v : A)
    → write (acc ++ x ∷ rest) (length acc) v ≡ some (acc ++ v ∷ rest)
write_next [] rest x v = refl
write_next (a ∷ acc) rest x v = rw (write_next acc rest x v)

module _ {ℓ} {F : Type ℓ} ⦃f : Field F⦄ (inputs : Inputs F) (idx : ℕ) (rot_scale : ℤ)
    (isize : ℕ) where
  -- Running the calculations on zeros leaves the values that they build.
  run-Built :
      (rs : List ℕ) (ks : List F) (infos : List CalculationInfo) (acc ints : List F)
      → Built inputs rs ks infos acc ints
      → run_calculations inputs idx rot_scale isize rs ks infos
          (acc ++ replicate (length infos) f.zero)
        ≡ some ints
  unfolding run_calculations
  run-Built rs ks [] acc ints b = ap some (append-nil acc ∙ b)
  run-Built rs ks (info ∷ infos) acc ints (v, t, c, b) =
      let zeros = replicate (length infos) f.zero in
      rw
        (
          evaluate_calculation_mono _ _ info.calculation v
              (get_mono inputs rs rs ks ks acc (acc ++ f.zero ∷ zeros) (λ i a h. h) (λ i a h. h)
                (Extends-append acc (f.zero ∷ zeros)))
              c,
          t,
          write_next acc zeros f.zero v,
          ← append_assoc acc (v ∷ []) zeros,
        )
        (run-Built rs ks infos (acc ++ v ∷ []) ints b)

  Built-length :
      (rs : List ℕ) (ks : List F) (infos : List CalculationInfo) (acc ints : List F)
      → Built inputs rs ks infos acc ints
      → length ints ≡ length acc + length infos
  Built-length rs ks [] acc ints b = omega (arith, ap length b)
  Built-length rs ks (info ∷ infos) acc ints (v, t, c, b) =
      omega (arith, Built-length rs ks infos (acc ++ v ∷ []) ints b, length-append acc (v ∷ []))

  fill_all :
      (rots : List ℤ)
      → fill_rotations inputs idx rot_scale isize rots (replicate (length rots) 0)
        ≡ some (map (index_of inputs idx rot_scale isize) rots)
  fill_all [] = refl
  fill_all (r ∷ rs) = rw (fill_all rs)

  last_value_snoc :
      (infos : List CalculationInfo) (info : CalculationInfo) (ints : List F)
      → last_value inputs idx rot_scale isize (infos ++ info ∷ []) ints ≡ get_elem? ints info.target
  last_value_snoc [] info ints = refl
  last_value_snoc (i ∷ []) info ints = refl
  last_value_snoc (i ∷ j ∷ is) info ints = last_value_snoc (j ∷ is) info ints

  -- A graph whose last calculation is a `Horner`, from the data that `instance` makes.
  pub evaluate-closed :
      (g : GraphEvaluator F) (ints : List F) (c : Calculation) (v : F)
      → Valid inputs idx rot_scale isize g ints
      → find_target c g.calculations ≡ none
      → evaluate_calculation (read inputs idx rot_scale isize g ints) c ≡ some v
      → evaluate_graph inputs idx rot_scale isize
          (add_calculation g c).1
          (instance_data inputs idx rot_scale isize (add_calculation g c).1)
        ≡ some v
  unfolding evaluate_graph instance_data add_calculation
  evaluate-closed g ints c v w e h =
      let info : CalculationInfo = record { calculation = c; target = g.num_intermediates } in
      let built =
        Built-snoc inputs (rows inputs idx rot_scale isize g) g.constants g.calculations [] ints c
          g.num_intermediates v w.built w.counted h in
      let size : g.num_intermediates + 1 ≡ length (g.calculations ++ info ∷ []) = omega (
        arith,
        w.counted,
        Built-length (rows inputs idx rot_scale isize g) g.constants g.calculations [] ints w.built,
        length-append g.calculations (info ∷ []),
      ) in
      rw (e, add_calculation)
        (rw
          (
            fill_all g.rotations,
            size,
            run-Built (rows inputs idx rot_scale isize g) g.constants (g.calculations ++ info ∷ [])
                [] (ints ++ v ∷ []) built,
            last_value_snoc g.calculations info (ints ++ v ∷ []),
            w.counted,
          )
          (get_elem?-append_length ints [] v))
