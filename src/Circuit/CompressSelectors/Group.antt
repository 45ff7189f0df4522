-- ===== src/Circuit/CompressSelectors/Group.antt =====
-- halo2_proofs/src/plonk/circuit/compress_selectors.rs: the combinations that `process` forms.
use halo2_gpu.Common.{
  ℕ, ◌+◌, ◌-◌, ◌≡◌, refl, Bool, true, false, List, [], ◌∷◌, ◌++◌, length, if◌then◌else◌, ◌≤◌, arith,
  ◌∙◌,
}
use halo2_gpu.Circuit.CompressSelectors.{SelectorDescription, overlaps, is_excluded}

-- No two of the selectors are active on one row.
abbrev pub AreDisjoint : List SelectorDescription → Type 0
AreDisjoint [] = Unit
AreDisjoint (s ∷ ss) = (is_excluded s ss ≡ false) × AreDisjoint ss

-- Every gate of the selectors has at most the degree `d` without its selector.
abbrev pub AllBounded : ℕ → List SelectorDescription → Type 0
AllBounded d [] = Unit
AllBounded d (s ∷ ss) = (s.max_degree - 1 ≤ d) × AllBounded d ss

-- The selectors may share a column: disjoint, and the product that replaces any of them, of the
-- degree `length ss`, keeps its gates within `max_degree`.
abbrev pub IsCombination : ℕ → List SelectorDescription → Type 0
IsCombination max_degree ss =
    AreDisjoint ss × ((d : ℕ) × AllBounded d ss × (d + length ss ≤ max_degree))

abbrev pub AllCombinations : ℕ → List (List SelectorDescription) → Type 0
AllCombinations max_degree [] = Unit
AllCombinations max_degree (c ∷ cs) = IsCombination max_degree c × AllCombinations max_degree cs

overlaps_comm : (ls rs : List Bool) → overlaps ls rs ≡ overlaps rs ls
unfolding overlaps
overlaps_comm [] [] = refl
overlaps_comm [] (r ∷ rs) = refl
overlaps_comm (l ∷ ls) [] = refl
overlaps_comm (true ∷ ls) (true ∷ rs) = refl
overlaps_comm (true ∷ ls) (false ∷ rs) = overlaps_comm ls rs
overlaps_comm (false ∷ ls) (true ∷ rs) = overlaps_comm ls rs
overlaps_comm (false ∷ ls) (false ∷ rs) = overlaps_comm ls rs

pub is_excluded-append :
    (s t : SelectorDescription) (ss : List SelectorDescription)
    → is_excluded s ss ≡ false
    → overlaps s.activations t.activations ≡ false
    → is_excluded s (ss ++ t ∷ []) ≡ false
unfolding is_excluded
is_excluded-append s t [] h k = rw (k)
is_excluded-append s t (u ∷ ss) h k = let ih = is_excluded-append s t ss in ground arith

pub AreDisjoint-append :
    (t : SelectorDescription) (ss : List SelectorDescription)
    → AreDisjoint ss
    → is_excluded t ss ≡ false
    → AreDisjoint (ss ++ t ∷ [])
unfolding is_excluded
AreDisjoint-append t [] h k = (refl, tt)
AreDisjoint-append t (s ∷ ss) h k =
    let e : overlaps t.activations s.activations ≡ false = ground arith in
    (
      is_excluded-append s t ss h.0 (overlaps_comm s.activations t.activations ∙ e),
      AreDisjoint-append t ss h.1 (ground arith),
    )

pub AllBounded-append :
    (d e : ℕ) (t : SelectorDescription) (ss : List SelectorDescription)
    → d ≤ e
    → AllBounded d ss
    → t.max_degree - 1 ≤ e
    → AllBounded e (ss ++ t ∷ [])
AllBounded-append d e t [] h b k = (k, tt)
AllBounded-append d e t (s ∷ ss) h b k = (omega (arith, b.0), AllBounded-append d e t ss h b.1 k)

-- The selectors of a list that a test holds of.
abbrev pub count : (SelectorDescription → Bool) → List SelectorDescription → ℕ
count p [] = 0
count p (s ∷ ss) = (if p s then 1 else 0) + count p ss

abbrev pub count_all : (SelectorDescription → Bool) → List (List SelectorDescription) → ℕ
count_all p [] = 0
count_all p (c ∷ cs) = count p c + count_all p cs

abbrev pub count_left : (SelectorDescription → Bool) → List (SelectorDescription × Bool) → ℕ
count_left p [] = 0
count_left p ((s, added) ∷ rest) = (if added then 0 else if p s then 1 else 0) + count_left p rest

pub count-append :
    (p : SelectorDescription → Bool) (s : SelectorDescription) (ss : List SelectorDescription)
    → count p (ss ++ s ∷ []) ≡ count p ss + (if p s then 1 else 0)
count-append p s [] = omega arith
count-append p s (t ∷ ss) = omega (arith, count-append p s ss)

-- Every selector has at least the degree of its own and fits a combination alone.
abbrev pub AllWithin : ℕ → List SelectorDescription → Type 0
AllWithin max_degree [] = Unit
AllWithin max_degree (s ∷ ss) =
    (1 ≤ s.max_degree) × (s.max_degree ≤ max_degree) × AllWithin max_degree ss

abbrev pub LeftWithin : ℕ → List (SelectorDescription × Bool) → Type 0
LeftWithin max_degree [] = Unit
LeftWithin max_degree ((s, added) ∷ rest) =
    (1 ≤ s.max_degree) × (s.max_degree ≤ max_degree) × LeftWithin max_degree rest

-- What holds when the loop over the later selectors starts and after each of its rounds.
abbrev pub IsGrowing : ℕ → ℕ → List SelectorDescription → Type 0
IsGrowing max_degree d c = AreDisjoint c × AllBounded d c × (d + length c ≤ max_degree)

-- What the loop makes of a combination and the selectors after it.
abbrev pub IsTried :
    ℕ
    → List SelectorDescription
    → List (SelectorDescription × Bool)
    → List SelectorDescription × List (SelectorDescription × Bool)
    → Type 0
IsTried max_degree c rest r =
    IsCombination max_degree r.0
    × LeftWithin max_degree r.1
    × (length r.1 ≡ length rest)
    × ((p : SelectorDescription → Bool)
        → count p r.0 + count_left p r.1 ≡ count p c + count_left p rest)
