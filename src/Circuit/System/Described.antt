-- ===== src/Circuit/System/Described.antt =====
-- halo2_proofs/src/plonk/circuit.rs: the descriptions that `compress_selectors` gives to `process`, and
-- what the assignments that come back say of the selectors.
use halo2_gpu.Common.{
  ℕ, suc, ◌+◌, ◌-◌, ◌≤◌, ◌<◌, ◌≡◌, refl, sym, ap, ap₂, ◌∙◌, subst, Bool, true, false, not, ◌==◌,
  none, some, List, [], ◌∷◌, length, get_elem?, if◌then◌else◌, Bool-cases, Option-cases, inl, inr,
  arith,
}
use mathlib.Core.Option.{some-injective}
use halo2_gpu.Common.Grid.{get_elem?_lt}
use halo2_gpu.Field.{Field}
use halo2_gpu.Circuit.Expression.{degree as expression_degree}
use halo2_gpu.Circuit.CompressSelectors.{SelectorDescription, SelectorAssignment, same_length}
use halo2_gpu.Circuit.CompressSelectors.Group.{count}
use halo2_gpu.Circuit.CompressSelectors.Columns.{AllAtMost}
use halo2_gpu.Circuit.CompressSelectors.Process.{is_same}
use halo2_gpu.Circuit.CompressSelectors.Degrees.{AllFit}
use halo2_gpu.Circuit.CompressSelectors.Plain.{AllPlain}
use halo2_gpu.Circuit.Column.{GpuColumn, GpuFixed}
use halo2_gpu.Circuit.System.Compress.{describe}
use halo2_gpu.Circuit.System.Place.{for_selector, AllGood}
use halo2_gpu.Circuit.System.Replaced.{Replaces}
use halo2_gpu.Circuit.System.Valid.{AllOf}

-- The description's degree is the one recorded for its selector.
abbrev is_listed : List ℕ → SelectorDescription → Bool
is_listed ds s = elim (get_elem? ds s.selector) [ none ↦ false | some m ↦ m == s.max_degree ]

is_listed_lem :
    (ds : List ℕ) (s : SelectorDescription)
    → is_listed ds s ≡ true
    → get_elem? ds s.selector ≡ some s.max_degree
is_listed_lem ds s h = elim (Option-cases (get_elem? ds s.selector)) [
  | inl p ↦ ground arith
  | inr (m, p) ↦ ground arith
]

listed :
    (ds : List ℕ) (s : SelectorDescription)
    → get_elem? ds s.selector ≡ some s.max_degree
    → is_listed ds s ≡ true
listed ds s h =
    subst (λ o. (elim o [ none ↦ false | some m ↦ m == s.max_degree ]) ≡ true) (sym h)
      (ground arith)

abbrev unlisted : List ℕ → SelectorDescription → Bool
unlisted ds s = not (is_listed ds s)

describe-listed :
    (ds later : List ℕ) (i : ℕ) (sels : List (List Bool))
    → ((j : ℕ) → get_elem? ds (i + j) ≡ get_elem? later j)
    → count (unlisted ds) (describe i sels later) ≡ 0
describe-listed ds later i [] h = refl
describe-listed ds [] i (a ∷ as') h = refl
describe-listed ds (d ∷ later) i (a ∷ as') h =
    let here : get_elem? ds i ≡ some d = ap (get_elem? ds) (omega arith) ∙ h 0 in
    let rest =
      describe-listed ds later (i + 1) as' (λ j. ap (get_elem? ds) (omega arith) ∙ h (suc j)) in
    let t = listed ds (record { selector = i; activations = a; max_degree = d }) here in
    rw (t) (omega (arith, rest))

abbrev for_index : ℕ → SelectorDescription → Bool
for_index k s = s.selector == k

-- Every selector is described once.
describe-count :
    (k i : ℕ) (sels : List (List Bool)) (ds : List ℕ)
    → length sels ≡ length ds
    → i ≤ k
    → k < i + length sels
    → 1 ≤ count (for_index k) (describe i sels ds)
describe-count k i [] ds l a b = absurd (omega (arith, a, b))
describe-count k i (s ∷ sels) [] l a b = absurd (omega arith)
describe-count k i (s ∷ sels) (d ∷ ds) l a b = elim (Bool-cases (i == k)) [
  | inl t ↦ ground arith
  | inr f ↦
      ground (
        arith,
        describe-count k (i + 1) sels ds (omega (arith, l)) (ground arith) (omega (arith, b)),
      )
]

abbrev every : SelectorDescription → Bool
every _ = true

describe-length :
    (i : ℕ) (sels : List (List Bool)) (ds : List ℕ)
    → length sels ≡ length ds
    → count every (describe i sels ds) ≡ length sels
describe-length i [] ds l = refl
describe-length i (s ∷ sels) [] l = absurd (omega arith)
describe-length i (s ∷ sels) (d ∷ ds) l =
    omega (arith, describe-length (i + 1) sels ds (omega (arith, l)))

pub describe-AllAtMost :
    (m i : ℕ) (sels : List (List Bool)) (ds : List ℕ)
    → ((j n : ℕ) → get_elem? ds j ≡ some n → n ≤ m)
    → AllAtMost m (describe i sels ds)
describe-AllAtMost m i [] ds h = tt
describe-AllAtMost m i (s ∷ sels) [] h = tt
describe-AllAtMost m i (s ∷ sels) (d ∷ ds) h =
    (h 0 d refl, describe-AllAtMost m (i + 1) sels ds (λ j. h (suc j)))

-- All selectors have `n` rows.
abbrev pub HaveRows : ℕ → List (List Bool) → Type 0
HaveRows n = AllOf (λ (s : List Bool). length s ≡ n)

describe-same_length :
    (n i : ℕ) (sels : List (List Bool)) (ds : List ℕ)
    → HaveRows n sels
    → same_length n (describe i sels ds) ≡ true
describe-same_length n i [] ds h = refl
describe-same_length n i (s ∷ sels) [] h = refl
describe-same_length n i (s ∷ sels) (d ∷ ds) h =
    let here : (length s == n) ≡ true = ground (arith, h.0) in
    rw (here) (describe-same_length n (i + 1) sels ds h.1)

pub describe-is_same :
    (n i : ℕ) (sels : List (List Bool)) (ds : List ℕ)
    → HaveRows n sels
    → is_same (describe i sels ds) ≡ true
describe-is_same n i [] ds h = refl
describe-is_same n i (s ∷ sels) [] h = refl
describe-is_same n i (s ∷ sels) (d ∷ ds) h =
    describe-same_length (length s) i (s ∷ sels) (d ∷ ds)
      (subst (λ k. HaveRows k (s ∷ sels)) (sym h.0) h)

module _ {ℓ} {F : Type ℓ} ⦃f : Field F⦄ (d : ℕ) where
  AllFit-for_selector :
      (k : ℕ) (order : List SelectorDescription) (xs : List (SelectorAssignment F))
      → AllFit d order xs
      → for_selector k xs ≡ count (for_index k) order
  AllFit-for_selector k [] [] h = refl
  AllFit-for_selector k [] (x ∷ xs) h = elim h.lower [ ]
  AllFit-for_selector k (s ∷ ss) [] h = elim h.lower [ ]
  AllFit-for_selector k (s ∷ ss) (x ∷ xs) h =
      ap₂ (λ i n. (if i == k then 1 else 0) + n) h.0 (AllFit-for_selector k ss xs h.3)

  AllFit-length :
      (order : List SelectorDescription) (xs : List (SelectorAssignment F))
      → AllFit d order xs
      → length xs ≡ count every order
  AllFit-length [] [] h = refl
  AllFit-length [] (x ∷ xs) h = elim h.lower [ ]
  AllFit-length (s ∷ ss) [] h = elim h.lower [ ]
  AllFit-length (s ∷ ss) (x ∷ xs) h = omega (arith, AllFit-length ss xs h.3)

  AllFit-AllGood :
      (n : ℕ) (ds : List ℕ) (columns : List (GpuColumn GpuFixed)) (order : List SelectorDescription)
      (xs : List (SelectorAssignment F))
      → length ds ≡ n
      → count (unlisted ds) order ≡ 0
      → AllFit d order xs
      → AllPlain (length columns) xs
      → AllGood (Replaces ds d) n columns xs
  AllFit-AllGood n ds columns [] [] l c h p = tt
  AllFit-AllGood n ds columns [] (x ∷ xs) l c h p = elim h.lower [ ]
  AllFit-AllGood n ds columns (s ∷ ss) [] l c h p = elim h.lower [ ]
  AllFit-AllGood n ds columns (s ∷ ss) (x ∷ xs) l c h p =
      let t : is_listed ds s ≡ true = ground arith in
      let at = ap (get_elem? ds) h.0 ∙ is_listed_lem ds s t in
      let within = get_elem?_lt ds x.selector s.max_degree at in
      (
        omega (arith, within, l),
        p.1,
        (
          p.0,
          λ m k.
              (let same : s.max_degree ≡ m = some-injective s.max_degree m (sym at ∙ k) in
                (
                  subst (λ z. z - 1 + expression_degree x.expression ≤ d) same h.1,
                  (λ z. h.2 (same ∙ z)),
                )),
        ),
        AllFit-AllGood n ds columns ss xs l (ground arith) h.3 p.2,
      )

  -- What the assignments hold for the selectors: where all descriptions are assigned, each once,
  -- and with fitting expressions, there is one for every selector, and all of them are good.
  pub assigned_lem :
      (sels : List (List Bool)) (ds : List ℕ) (columns : List (GpuColumn GpuFixed))
      (order : List SelectorDescription) (xs : List (SelectorAssignment F))
      → length sels ≡ length ds
      → ((p : SelectorDescription → Bool) → count p order ≡ count p (describe 0 sels ds))
      → AllFit d order xs
      → AllPlain (length columns) xs
      → AllGood (Replaces ds d) (length ds) columns xs
        × (length xs ≡ length sels)
        × ((k : ℕ) → k < length sels → 1 ≤ for_selector k xs)
  assigned_lem sels ds columns order xs l m h p = (
    AllFit-AllGood (length ds) ds columns order xs refl
        (m (unlisted ds) ∙ describe-listed ds ds 0 sels (λ j. ap (get_elem? ds) (omega arith))) h p,
    AllFit-length order xs h ∙ m every ∙ describe-length 0 sels ds l,
    λ k b. omega (
      arith,
      AllFit-for_selector k order xs h,
      m (for_index k),
      describe-count k 0 sels ds l (omega arith) (omega (arith, b)),
    ),
  )
