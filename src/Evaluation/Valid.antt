-- ===== src/Evaluation/Valid.antt =====
-- The invariant of a calculation graph at one row: there are values for its intermediates, each
-- computed from the ones before it.
use halo2_gpu.Common.{
  ℕ, ◌≡◌, sym, ap, ◌∙◌, subst, Option, some, List, [], ◌∷◌, ◌++◌, length, get_elem?, >>=-eq-some,
  arith, Bool-cases, inl, inr,
}
use mathlib.Core.Option.{some-injective}
use halo2_gpu.Field.{Field}
use halo2_gpu.Evaluation.{ValueSource, Calculation, CalculationInfo, calculation_eq, find_target}
use halo2_gpu.Evaluation.Compare.{
  Extends, Extends-append, get_elem?-append_length, calculation_eq_sound,
}
use halo2_gpu.Evaluation.Run.{Inputs, get, rotated, horner_loop, evaluate_calculation}

abbrev pub AtLeast {ℓ} : {F : Type ℓ} (before after : ValueSource → Option F) → Type ℓ
AtLeast {F} before after = (s : ValueSource) (v : F) → before s ≡ some v → after s ≡ some v

module _ {ℓ} {F : Type ℓ} ⦃f : Field F⦄ where
  horner_loop_mono :
      (before after : ValueSource → Option F) (k : F) (parts : List ValueSource) (x v : F)
      → AtLeast before after
      → horner_loop before k parts x ≡ some v
      → horner_loop after k parts x ≡ some v
  horner_loop_mono before after k [] x v m h = h
  horner_loop_mono before after k (p ∷ ps) x v m h =
      let (a, ea, rest) = >>=-eq-some (before p) _ h in
      rw (m p a ea) (horner_loop_mono before after k ps _ v m rest)

  -- A calculation keeps its value when its sources keep theirs.
  pub evaluate_calculation_mono :
      (before after : ValueSource → Option F) (c : Calculation) (v : F)
      → AtLeast before after
      → evaluate_calculation before c ≡ some v
      → evaluate_calculation after c ≡ some v
  unfolding evaluate_calculation
  evaluate_calculation_mono before after (Calculation.add a b) v m h =
      let (x, ea, k) = >>=-eq-some (before a) _ h in
      let (z, eb, l) = >>=-eq-some (before b) _ k in rw (m a x ea, m b z eb) l
  evaluate_calculation_mono before after (Calculation.sub a b) v m h =
      let (x, ea, k) = >>=-eq-some (before a) _ h in
      let (z, eb, l) = >>=-eq-some (before b) _ k in rw (m a x ea, m b z eb) l
  evaluate_calculation_mono before after (Calculation.mul a b) v m h =
      let (x, ea, k) = >>=-eq-some (before a) _ h in
      let (z, eb, l) = >>=-eq-some (before b) _ k in rw (m a x ea, m b z eb) l
  evaluate_calculation_mono before after (Calculation.square a) v m h =
      let (x, ea, k) = >>=-eq-some (before a) _ h in rw (m a x ea) k
  evaluate_calculation_mono before after (Calculation.double a) v m h =
      let (x, ea, k) = >>=-eq-some (before a) _ h in rw (m a x ea) k
  evaluate_calculation_mono before after (Calculation.negate a) v m h =
      let (x, ea, k) = >>=-eq-some (before a) _ h in rw (m a x ea) k
  evaluate_calculation_mono before after (Calculation.horner a ps b) v m h =
      let (x, eb, k) = >>=-eq-some (before b) _ h in
      let (z, ea, l) = >>=-eq-some (before a) _ k in
      rw (m b x eb, m a z ea) (horner_loop_mono before after x ps z v m l)
  evaluate_calculation_mono before after (Calculation.store a) v m h = m a v h

module _ {ℓ} {F : Type ℓ} (inputs : Inputs F) where
  rotated_mono :
      (table : List (List F)) (rows rows' : List ℕ) (c r : ℕ) (v : F)
      → Extends rows rows'
      → rotated inputs table rows c r ≡ some v
      → rotated inputs table rows' c r ≡ some v
  rotated_mono table rows rows' c r v e h =
      let (row, er, k) = >>=-eq-some (get_elem? rows r) _ h in rw (e r row er) k

  pub get_mono :
      (rows rows' : List ℕ) (constants constants' ints ints' : List F)
      → Extends rows rows'
      → Extends constants constants'
      → Extends ints ints'
      → AtLeast (get inputs rows constants ints) (get inputs rows' constants' ints')
  unfolding get
  get_mono rows rows' ks ks' is is' er ek ei (ValueSource.constant i) v h = ek i v h
  get_mono rows rows' ks ks' is is' er ek ei (ValueSource.intermediate i) v h = ei i v h
  get_mono rows rows' ks ks' is is' er ek ei (ValueSource.fixed c r) v h =
      rotated_mono inputs.fixed rows rows' c r v er h
  get_mono rows rows' ks ks' is is' er ek ei (ValueSource.advice c r) v h =
      rotated_mono inputs.advice rows rows' c r v er h
  get_mono rows rows' ks ks' is is' er ek ei (ValueSource.instance_query c r) v h =
      rotated_mono inputs.instance_values rows rows' c r v er h
  get_mono rows rows' ks ks' is is' er ek ei (ValueSource.challenge i) v h = h
  get_mono rows rows' ks ks' is is' er ek ei ValueSource.beta v h = h
  get_mono rows rows' ks ks' is is' er ek ei ValueSource.gamma v h = h
  get_mono rows rows' ks ks' is is' er ek ei ValueSource.theta v h = h
  get_mono rows rows' ks ks' is is' er ek ei ValueSource.y v h = h
  get_mono rows rows' ks ks' is is' er ek ei ValueSource.previous_value v h = h

module _ {ℓ} {F : Type ℓ} ⦃f : Field F⦄ (inputs : Inputs F) where
  -- The calculations take the values `acc` to the values `ints`, each calculation adding the
  -- value at its target, which is the next place.
  abbrev pub Built : List ℕ → List F → List CalculationInfo → List F → List F → Type ℓ
  Built rows constants [] acc ints = acc ≡ ints
  Built rows constants (info ∷ infos) acc ints =
      (v : F) × (info.target ≡ length acc)
      × (evaluate_calculation (get inputs rows constants acc) info.calculation ≡ some v)
      × Built rows constants infos (acc ++ v ∷ []) ints

  pub Built-mono :
      (rows rows' : List ℕ) (ks ks' : List F) (infos : List CalculationInfo) (acc ints : List F)
      → Extends rows rows'
      → Extends ks ks'
      → Built rows ks infos acc ints
      → Built rows' ks' infos acc ints
  Built-mono rows rows' ks ks' [] acc ints er ek b = b
  Built-mono rows rows' ks ks' (info ∷ infos) acc ints er ek (v, t, c, b) = (
    v,
    t,
    evaluate_calculation_mono _ _ info.calculation v
        (get_mono inputs rows rows' ks ks' acc acc er ek (λ i a h. h)) c,
    Built-mono rows rows' ks ks' infos (acc ++ v ∷ []) ints er ek b,
  )

  pub Built-snoc :
      (rows : List ℕ) (ks : List F) (infos : List CalculationInfo) (acc ints : List F)
      (c : Calculation) (t : ℕ) (v : F)
      → Built rows ks infos acc ints
      → t ≡ length ints
      → evaluate_calculation (get inputs rows ks ints) c ≡ some v
      → Built rows ks (infos ++ record { calculation = c; target = t } ∷ []) acc (ints ++ v ∷ [])
  Built-snoc rows ks [] acc ints c t v b e h = (
    v,
    e ∙ sym (ap length b),
    ap (λ l. evaluate_calculation (get inputs rows ks l) c) b ∙ h,
    ap (λ l. l ++ v ∷ []) b,
  )
  Built-snoc rows ks (info ∷ infos) acc ints c t v (w, p, q, b) e h =
      (w, p, q, Built-snoc rows ks infos (acc ++ w ∷ []) ints c t v b e h)

  pub Built-Extends :
      (rows : List ℕ) (ks : List F) (infos : List CalculationInfo) (acc ints : List F)
      → Built rows ks infos acc ints
      → Extends acc ints
  Built-Extends rows ks [] acc ints b i a h = sym (ap (λ l. get_elem? l i) b) ∙ h
  Built-Extends rows ks (info ∷ infos) acc ints (v, p, q, b) i a h =
      Built-Extends rows ks infos (acc ++ v ∷ []) ints b i a (Extends-append acc (v ∷ []) i a h)

  -- A calculation that is found in the graph has its value at the target that is returned.
  pub find_target-Built :
      (rows : List ℕ) (ks : List F) (infos : List CalculationInfo) (acc ints : List F)
      (c : Calculation) (t : ℕ) (v : F)
      → Built rows ks infos acc ints
      → find_target c infos ≡ some t
      → evaluate_calculation (get inputs rows ks ints) c ≡ some v
      → get_elem? ints t ≡ some v
  unfolding find_target
  find_target-Built rows ks [] acc ints c t v b e h = cc
  find_target-Built rows ks (info ∷ infos) acc ints c t v (w, p, q, b) e h =
      elim (Bool-cases (calculation_eq info.calculation c)) [
        | inl same ↦
            let found : info.target ≡ t = ground arith in
            let is_c : info.calculation ≡ c = calculation_eq_sound info.calculation c same in
            let now : evaluate_calculation (get inputs rows ks ints) c ≡ some w =
              evaluate_calculation_mono _ _ c w
                (get_mono inputs rows rows ks ks acc ints (λ i a k. k) (λ i a k. k)
                  (Built-Extends rows ks (info ∷ infos) acc ints (w, p, q, b)))
                (subst (λ t. evaluate_calculation (get inputs rows ks acc) t ≡ some w) is_c q) in
            let same_value : w ≡ v = some-injective w v (sym now ∙ h) in
            ap (get_elem? ints) (sym found ∙ p)
            ∙ Built-Extends rows ks infos (acc ++ w ∷ []) ints b (length acc) w
                (get_elem?-append_length acc [] w)
            ∙ ap some same_value
        | inr other ↦ find_target-Built rows ks infos (acc ++ w ∷ []) ints c t v b (ground arith) h
      ]
