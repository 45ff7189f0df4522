-- ===== src/Circuit/CompressSelectors/Partition.antt =====
-- halo2_proofs/src/plonk/circuit/compress_selectors.rs: the loops of `process` that sort the
-- simple selectors into combinations.
use halo2_gpu.Common.{
  ℕ, zero, suc, ◌+◌, ◌-◌, ◌≡◌, refl, Bool, true, false, ◌||◌, ◌==◌, max, Option, some, List, [],
  ◌∷◌, ◌++◌, length, length-append, map, if◌then◌else◌, ◌≤◌, arith, ◌∙◌, ap, le→leb,
}
use halo2_gpu.Circuit.CompressSelectors.{
  SelectorDescription, is_excluded, joins, try_selectors, combine, combinations,
}
use halo2_gpu.Circuit.CompressSelectors.Group.{
  AllCombinations, count, count_all, count_left, AllWithin, LeftWithin, IsGrowing, IsTried,
  AreDisjoint-append, AllBounded-append, count-append,
}

joins_facts :
    (max_degree d : ℕ) (c : List SelectorDescription) (s : SelectorDescription) (added : Bool)
    → joins max_degree d c s added ≡ true
    → (added ≡ false)
      × (is_excluded s c ≡ false)
      × (max d (s.max_degree - 1) + length c + 1 ≤ max_degree)
joins_facts max_degree d c s added h = (ground arith, ground arith, ground arith)

either {ℓ κ} :
    {A : Type ℓ} (P : A → Type κ) (b : Bool) {x y : A} → P x → P y → P (if b then x else y)
either P true p q = p
either P false p q = q

grown :
    (max_degree d : ℕ) (c : List SelectorDescription) (s : SelectorDescription)
    → IsGrowing max_degree d c
    → is_excluded s c ≡ false
    → max d (s.max_degree - 1) + length c + 1 ≤ max_degree
    → IsGrowing max_degree (max d (s.max_degree - 1)) (c ++ s ∷ [])
grown max_degree d c s g e h = (
  AreDisjoint-append s c g.0 e,
  AllBounded-append d (max d (s.max_degree - 1)) s c (omega arith) g.1 (omega arith),
  omega (arith, length-append c (s ∷ [])),
)

module _ (max_degree : ℕ) (rest : List (SelectorDescription × Bool)) where
  abbrev HasTried : Type 0
  HasTried =
      (d : ℕ) (c : List SelectorDescription)
      → IsGrowing max_degree d c
      → LeftWithin max_degree rest
      → IsTried max_degree c rest (try_selectors max_degree d c rest)

  round :
      (d : ℕ) (c : List SelectorDescription) (s : SelectorDescription) (added here : Bool)
      → joins max_degree d c s added ≡ here
      → IsGrowing max_degree d c
      → LeftWithin max_degree ((s, added) ∷ rest)
      → HasTried
      → IsTried max_degree c ((s, added) ∷ rest) (
          let next =
            try_selectors max_degree
              (if here then max d (s.max_degree - 1) else d)
              (if here then c ++ s ∷ [] else c)
              rest in
          (next.0, (s, added || here) ∷ next.1))
  round d c s added true j g w ih =
      let (a, e, h) = joins_facts max_degree d c s added j in
      let (k, l, n, q) =
        ih (max d (s.max_degree - 1)) (c ++ s ∷ []) (grown max_degree d c s g e h) w.2 in
      (k, (w.0, w.1, l), ap suc n, λ p. rw (a) (omega (arith, q p, count-append p s c)))
  round d c s added false j g w ih =
      let (k, l, n, q) = ih d c g w.2 in (k, (w.0, w.1, l), ap suc n, λ p. ground (arith, q p))

tried_lem : (max_degree : ℕ) (rest : List (SelectorDescription × Bool)) → HasTried max_degree rest
unfolding try_selectors
tried_lem max_degree [] d c g w = ((g.0, (d, g.1, g.2)), tt, refl, λ p. refl)
tried_lem max_degree ((s, added) ∷ rest) d c g w =
    either (IsTried max_degree c ((s, added) ∷ rest)) (d + length c == max_degree)
      ((g.0, (d, g.1, g.2)), w, refl, λ p. refl)
      (round max_degree rest d c s added (joins max_degree d c s added) refl g w
        (tried_lem max_degree rest))

module _ (max_degree : ℕ) where
  alone :
      (s : SelectorDescription)
      → 1 ≤ s.max_degree
      → s.max_degree ≤ max_degree
      → IsGrowing max_degree (s.max_degree - 1) (s ∷ [])
  unfolding is_excluded
  alone s l h = ((refl, tt), (omega arith, tt), omega arith)

  -- The combinations hold what was left, each selector once.
  abbrev Partitions :
      List (SelectorDescription × Bool) → Option (List (List SelectorDescription)) → Type 0
  Partitions rest r =
      (cs : List (List SelectorDescription)) × (r ≡ some cs)
      × AllCombinations max_degree cs
      × ((p : SelectorDescription → Bool) → count_all p cs ≡ count_left p rest)

  combine_lem :
      (rounds : ℕ) (rest : List (SelectorDescription × Bool))
      → length rest ≤ rounds
      → LeftWithin max_degree rest
      → Partitions rest (combine rounds max_degree rest)
  unfolding combine
  combine_lem rounds [] n w = ([], refl, tt, λ p. refl)
  combine_lem zero (s ∷ rest) n w = absurd (omega arith)
  combine_lem (suc rounds) ((s, true) ∷ rest) n w =
      let (cs, e, a, r) = combine_lem rounds rest (omega arith) w.2 in
      (cs, e, a, λ p. omega (arith, r p))
  combine_lem (suc rounds) ((s, false) ∷ rest) n w =
      let (k, l, m, q) =
        tried_lem max_degree rest (s.max_degree - 1) (s ∷ []) (alone s w.0 w.1) w.2 in
      let tried = try_selectors max_degree (s.max_degree - 1) (s ∷ []) rest in
      let (cs, e, a, r) = combine_lem rounds tried.1 (omega (arith, m)) l in
      (
        tried.0 ∷ cs,
        rw (le→leb s.max_degree max_degree w.1, e),
        (k, a),
        λ p. omega (arith, q p, r p),
      )

  abbrev unmarked : List SelectorDescription → List (SelectorDescription × Bool)
  unmarked = map (λ s. (s, false))

  unmarked-length : (ss : List SelectorDescription) → length (unmarked ss) ≡ length ss
  unmarked-length [] = refl
  unmarked-length (s ∷ ss) = ap suc (unmarked-length ss)

  unmarked-LeftWithin :
      (ss : List SelectorDescription)
      → AllWithin max_degree ss
      → LeftWithin max_degree (unmarked ss)
  unmarked-LeftWithin [] w = tt
  unmarked-LeftWithin (s ∷ ss) w = (w.0, w.1, unmarked-LeftWithin ss w.2)

  count-unmarked :
      (p : SelectorDescription → Bool) (ss : List SelectorDescription)
      → count_left p (unmarked ss) ≡ count p ss
  count-unmarked p [] = refl
  count-unmarked p (s ∷ ss) = omega (arith, count-unmarked p ss)

  -- If every simple selector has a degree from 1 to `max_degree`, the loop fails no assertion. It
  -- puts every selector into exactly one combination (any test holds of as many selectors of the
  -- combinations together as of the given ones); no two selectors of a combination are active on
  -- one row, and the degree of each of their gates without its selector, with the size of the
  -- combination added, is at most `max_degree`.
  pub combinations_total :
      (selectors : List SelectorDescription)
      → AllWithin max_degree selectors
      → (cs : List (List SelectorDescription)) × (combinations max_degree selectors ≡ some cs)
        × AllCombinations max_degree cs
        × ((p : SelectorDescription → Bool) → count_all p cs ≡ count p selectors)
  unfolding combinations
  combinations_total selectors w =
      let (cs, e, a, r) =
        combine_lem (length selectors) (unmarked selectors)
          (omega (arith, unmarked-length selectors)) (unmarked-LeftWithin selectors w) in
      (cs, e, a, λ p. r p ∙ count-unmarked p selectors)
