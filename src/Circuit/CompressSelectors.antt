-- ===== src/Circuit/CompressSelectors.antt =====
-- halo2_proofs/src/plonk/circuit/compress_selectors.rs: combining selectors into fixed columns.
-- `process` is modelled in the two phases of its loop: which selectors are combined, and what is
-- emitted for a combination. `added` is kept beside each selector. The n-th call of the closure
-- `allocate_fixed_column` returns `column n`; each call belongs to the combination that is pushed
-- next. An entry of the exclusion matrix is computed where it is read. None is a failed assertion
-- or an operator's panic.
pub mod Group
pub mod Partition
pub mod Root
pub mod Rows
pub mod Reads
pub mod Columns
pub mod Process
pub mod Degrees
pub mod Fit
pub mod Plain
mod Examples
use halo2_gpu.Common.{
  ℕ, zero, suc, ◌+◌, ◌-◌, ◌≡◌, Bool, true, false, ◌&&◌, ◌||◌, not, ◌==◌, ltb, leb, max, Option,
  none, some, List, [], ◌∷◌, ◌++◌, length, map, if◌then◌else◌, ◌>>=◌,
}
use halo2_gpu.Field.{Field, ◌⊕◌, ◌=?◌}
use halo2_gpu.Circuit.Expression.{GpuExpression, constant, sub, mul}

pub record SelectorDescription : Type 0 where
  pub selector : ℕ
  pub activations : List Bool
  pub max_degree : ℕ

pub record SelectorAssignment {ℓ} (F : Type ℓ) : Type ℓ where
  pub selector : ℕ
  pub combination_index : ℕ
  pub expression : GpuExpression F

-- An entry of the exclusion matrix: both selectors are active on a row.
unfoldable pub overlaps : List Bool → List Bool → Bool
overlaps (l ∷ ls) (r ∷ rs) = (l && r) || overlaps ls rs
overlaps _ _ = false

-- The loop over `combination_added`.
unfoldable pub is_excluded : SelectorDescription → List SelectorDescription → Bool
is_excluded s [] = false
is_excluded s (t ∷ ts) = overlaps s.activations t.activations || is_excluded s ts

-- Can the selector join a combination of `len` selectors with the degree `d`?
abbrev fits : ℕ → ℕ → ℕ → SelectorDescription → Bool
fits max_degree d len s = leb (max d (s.max_degree - 1) + len + 1) max_degree

abbrev pub joins : ℕ → ℕ → List SelectorDescription → SelectorDescription → Bool → Bool
joins max_degree d combination s added =
    not added && (not (is_excluded s combination) && fits max_degree d (length combination) s)

-- The loop `'try_selectors`, with the combination so far; it returns the whole combination, and
-- the later selectors with their marks.
unfoldable pub try_selectors :
    ℕ
    → ℕ
    → List SelectorDescription
    → List (SelectorDescription × Bool)
    → List SelectorDescription × List (SelectorDescription × Bool)
try_selectors max_degree d combination [] = (combination, [])
try_selectors max_degree d combination ((s, added) ∷ rest) =
    let here = joins max_degree d combination s added in
    let next =
      try_selectors max_degree (if here then max d (s.max_degree - 1) else d)
        (if here then combination ++ s ∷ [] else combination) rest in
    let stopped : List SelectorDescription × List (SelectorDescription × Bool) =
      (combination, (s, added) ∷ rest) in
    let tried : List SelectorDescription × List (SelectorDescription × Bool) =
      (next.0, (s, added || here) ∷ next.1) in
    if d + length combination == max_degree then stopped else tried

-- The loop over the simple selectors: the combinations in order. The first argument bounds the
-- rounds, one for each selector.
unfoldable pub combine :
    ℕ → ℕ → List (SelectorDescription × Bool) → Option (List (List SelectorDescription))
combine rounds max_degree [] = some []
combine zero max_degree (s ∷ rest) = none
combine (suc rounds) max_degree ((s, true) ∷ rest) = combine rounds max_degree rest
combine (suc rounds) max_degree ((s, false) ∷ rest) =
    let tried = try_selectors max_degree (s.max_degree - 1) (s ∷ []) rest in
    let later : Option (List (List SelectorDescription)) = (do
      combinations ← combine rounds max_degree tried.1
      some (tried.0 ∷ combinations)) in
    if leb s.max_degree max_degree then later else none

unfoldable pub combinations :
    ℕ → List SelectorDescription → Option (List (List SelectorDescription))
combinations max_degree selectors =
    combine (length selectors) max_degree (map (λ s. (s, false)) selectors)

abbrev pub same_length : ℕ → List SelectorDescription → Bool
same_length n [] = true
same_length n (s ∷ rest) = length s.activations == n && same_length n rest

module _ {ℓ} {F : Type ℓ} ⦃f : Field F⦄ where
  -- `query * Prod (root - query)` over the roots from `root` on but the assigned one.
  unfoldable pub root_product :
      ℕ → GpuExpression F → F → F → GpuExpression F → Option (GpuExpression F)
  root_product zero query assigned_root root expression = some expression
  root_product (suc n) query assigned_root root expression =
      let skipped = root_product n query assigned_root (root ⊕ f.one) expression in
      let multiplied : Option (GpuExpression F) = (do
        factor ← sub (constant root) query
        product ← mul expression factor
        root_product n query assigned_root (root ⊕ f.one) product) in
      if root =? assigned_root then skipped else multiplied

  -- The rows where the selector is active are set to its root.
  unfoldable pub assign_rows : F → List F → List Bool → List F
  assign_rows root [] bs = []
  assign_rows root (c ∷ cs) [] = c ∷ cs
  assign_rows root (c ∷ cs) (b ∷ bs) = (if b then root else c) ∷ assign_rows root cs bs

  -- The closure over a combination's selectors, with the root and the assignment so far.
  unfoldable pub emit_selectors :
      ℕ
      → ℕ
      → GpuExpression F
      → F
      → List F
      → List SelectorDescription
      → Option (List F × List (SelectorAssignment F))
  emit_selectors len index query assigned_root rows [] = some (rows, [])
  emit_selectors len index query assigned_root rows (s ∷ rest) = do
    e ← root_product len query assigned_root f.one query
    later ←
        emit_selectors len index query (assigned_root ⊕ f.one)
          (assign_rows assigned_root rows s.activations) rest
    some (
      later.0,
      record { selector = s.selector; combination_index = index; expression = e } ∷ later.1,
    )

  abbrev pub zeros : ℕ → List F
  zeros zero = []
  zeros (suc n) = f.zero ∷ zeros n

  -- The combinations in order, from the index of the first.
  unfoldable pub emit_combinations :
      ℕ
      → (ℕ → GpuExpression F)
      → ℕ
      → List (List SelectorDescription)
      → Option (List (List F) × List (SelectorAssignment F))
  emit_combinations n column index [] = some ([], [])
  emit_combinations n column index (combination ∷ rest) = do
    one ← emit_selectors (length combination) index (column index) f.one (zeros n) combination
    later ← emit_combinations n column (index + 1) rest
    some (one.0 ∷ later.0, one.1 ++ later.1)

  abbrev pub indicator : Bool → F
  indicator b = if b then f.one else f.zero

  -- `retain`: a selector of degree zero has a column of its own. The columns and assignments so
  -- far, from the index of the first, and the selectors that are left.
  unfoldable pub emit_complex :
      (ℕ → GpuExpression F)
      → ℕ
      → List SelectorDescription
      → List (List F) × List (SelectorAssignment F) × List SelectorDescription
  emit_complex column index [] = ([], [], [])
  emit_complex column index (s ∷ rest) =
      let here = s.max_degree == 0 in
      let later = emit_complex column (if here then index + 1 else index) rest in
      if here
      then (
        map indicator s.activations ∷ later.0,
        record { selector = s.selector; combination_index = index; expression = column index }
            ∷ later.1,
        later.2,
      )
      else (later.0, later.1, s ∷ later.2)

  unfoldable pub process :
      List SelectorDescription
      → ℕ
      → (ℕ → GpuExpression F)
      → Option (List (List F) × List (SelectorAssignment F))
  process [] max_degree column = some ([], [])
  process (s ∷ rest) max_degree column =
      let n = length s.activations in
      let complex = emit_complex column 0 (s ∷ rest) in
      let combined : Option (List (List F) × List (SelectorAssignment F)) = (do
        groups ← combinations max_degree complex.2
        simple ← emit_combinations n column (length complex.0) groups
        some (complex.0 ++ simple.0, complex.1 ++ simple.1)) in
      if same_length n (s ∷ rest) then combined else none
