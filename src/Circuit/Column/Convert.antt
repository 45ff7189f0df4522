-- ===== src/Circuit/Column/Convert.antt =====
-- halo2_proofs/src/plonk/circuit.rs: the conversions of columns and their queries.
use halo2_gpu.Common.{ℕ, ◌≡◌, ◌↔◌, refl, sym, ap, some}
use mathlib.Core.Option.{some-injective}
use halo2_gpu.Circuit.{Rotation}
use halo2_gpu.Circuit.Column.{
  GpuAny, any_advice, any_fixed, any_instance, GpuColumn, GpuAdvice, GpuFixed, GpuInstance,
  try_advice, try_fixed, try_instance, from_column, from_fixed, from_instance, the_fixed,
  the_instance, query_advice, query_fixed, query_instance, query_any, query_cell,
}

advice_at :
    (i : ℕ) (t : GpuAny) (a : GpuColumn GpuAdvice)
    → (try_advice (record { index = i; column_type = t }) ≡ some a)
      ↔ (from_column any_advice a ≡ record { index = i; column_type = t })
unfolding try_advice
advice_at i (any_advice t) a =
    ((λ h. sym (ap (from_column any_advice) (some-injective _ a h))), (λ h. ap try_advice (sym h)))
advice_at i any_fixed a = ((λ h. cc), (λ h. ap try_advice (sym h)))
advice_at i any_instance a = ((λ h. cc), (λ h. ap try_advice (sym h)))

fixed_at :
    (i : ℕ) (t : GpuAny) (j : ℕ) (v : GpuFixed)
    → (try_fixed (record { index = i; column_type = t })
        ≡ some (record { index = j; column_type = v }))
      ↔ (from_column from_fixed (record { index = j; column_type = v })
          ≡ record { index = i; column_type = t })
unfolding try_fixed
fixed_at i any_fixed j the_fixed =
    ((λ h. sym (ap (from_column from_fixed) (some-injective _ _ h))), (λ h. ap try_fixed (sym h)))
fixed_at i (any_advice t) j the_fixed = ((λ h. cc), (λ h. ap try_fixed (sym h)))
fixed_at i any_instance j the_fixed = ((λ h. cc), (λ h. ap try_fixed (sym h)))

instance_at :
    (i : ℕ) (t : GpuAny) (j : ℕ) (v : GpuInstance)
    → (try_instance (record { index = i; column_type = t })
        ≡ some (record { index = j; column_type = v }))
      ↔ (from_column from_instance (record { index = j; column_type = v })
          ≡ record { index = i; column_type = t })
unfolding try_instance
instance_at i any_instance j the_instance = (
  (λ h. sym (ap (from_column from_instance) (some-injective _ _ h))),
  (λ h. ap try_instance (sym h)),
)
instance_at i (any_advice t) j the_instance = ((λ h. cc), (λ h. ap try_instance (sym h)))
instance_at i any_fixed j the_instance = ((λ h. cc), (λ h. ap try_instance (sym h)))

-- For each of the three types, converting a column of any type succeeds with a column exactly if
-- the column comes from that one.
pub try_from_iff :
    (c : GpuColumn GpuAny)
    → ((a : GpuColumn GpuAdvice) → (try_advice c ≡ some a) ↔ (from_column any_advice a ≡ c))
      × ((a : GpuColumn GpuFixed) → (try_fixed c ≡ some a) ↔ (from_column from_fixed a ≡ c))
      × ((a : GpuColumn GpuInstance)
          → (try_instance c ≡ some a) ↔ (from_column from_instance a ≡ c))
try_from_iff c = (
  advice_at c.index c.column_type,
  (λ a. fixed_at c.index c.column_type a.index a.column_type),
  (λ a. instance_at c.index c.column_type a.index a.column_type),
)

-- Querying a cell of a column gives the query of the column read as any type, for each of the
-- three types.
pub query_cell-from_column {ℓ} :
    (F : Type ℓ) (at : Rotation) (a : GpuColumn GpuAdvice) (b : GpuColumn GpuFixed)
    (c : GpuColumn GpuInstance)
    → (query_cell {F = F} query_any (from_column any_advice a) at ≡ query_cell query_advice a at)
      × (query_cell {F = F} query_any (from_column from_fixed b) at ≡ query_cell query_fixed b at)
      × (query_cell {F = F} query_any (from_column from_instance c) at
          ≡ query_cell query_instance c at)
unfolding query_cell query_any query_advice query_fixed query_instance
query_cell-from_column F at a b c = (refl, refl, refl)
