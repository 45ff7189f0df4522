-- ===== src/Circuit/Column.antt =====
-- halo2_proofs/src/plonk/circuit.rs: column types and columns, their order, the conversions
-- between them and the query of a cell. A failed conversion is none. `Into<GpuAny>` is the
-- argument `into` of what uses it.
pub mod Order
pub mod Convert
pub mod Equal
mod Examples
use Prim.Native.Nat.{compare, Ordering}
use halo2_gpu.Common.{ℕ, Option, none, some}
use halo2_gpu.Common.Int.{pos, negsuc}
use halo2_gpu.Circuit.{Rotation, Phase}
use halo2_gpu.Circuit.Expression.{GpuExpression, advice, fixed, instance_query}

pub record GpuAdvice : Type 0 where
  pub phase : Phase

pub data GpuFixed : Type 0 where
  the_fixed : GpuFixed

pub data GpuInstance : Type 0 where
  the_instance : GpuInstance

pub data GpuAny : Type 0 where
  any_advice : GpuAdvice → GpuAny
  any_fixed : GpuAny
  any_instance : GpuAny

-- `Ord for GpuAny`: instance, advice by phase, fixed.
unfoldable pub cmp_any : GpuAny → GpuAny → Ordering
cmp_any any_instance any_instance = Ordering.eq
cmp_any any_fixed any_fixed = Ordering.eq
cmp_any (any_advice l) (any_advice r) = compare l.phase r.phase
cmp_any any_instance (any_advice r) = Ordering.lt
cmp_any (any_advice l) any_fixed = Ordering.lt
cmp_any any_instance any_fixed = Ordering.lt
cmp_any any_fixed any_instance = Ordering.gt
cmp_any any_fixed (any_advice r) = Ordering.gt
cmp_any (any_advice l) any_instance = Ordering.gt

pub record GpuColumn {ℓ} (C : Type ℓ) : Type ℓ where
  pub index : ℕ
  pub column_type : C

-- The order of the first, and of the second where the first are equal.
abbrev pub then_cmp : Ordering → Ordering → Ordering
then_cmp Ordering.eq second = second
then_cmp first second = first

-- `Ord for GpuColumn<C>`
unfoldable pub cmp {ℓ} : {C : Type ℓ} → (C → GpuAny) → GpuColumn C → GpuColumn C → Ordering
cmp into a b =
    then_cmp (cmp_any (into a.column_type) (into b.column_type)) (compare a.index b.index)

-- `From` into `GpuAny`, and into a column of any type.
abbrev pub from_fixed : GpuFixed → GpuAny
from_fixed _ = any_fixed

abbrev pub from_instance : GpuInstance → GpuAny
from_instance _ = any_instance

abbrev pub from_column {ℓ} : {C : Type ℓ} → (C → GpuAny) → GpuColumn C → GpuColumn GpuAny
from_column into c = record { index = c.index; column_type = into c.column_type }

-- The three forms of `TryFrom<GpuColumn<GpuAny>>`.
abbrev advice_type : GpuAny → Option GpuAdvice
advice_type (any_advice a) = some a
advice_type _ = none

abbrev fixed_type : GpuAny → Option GpuFixed
fixed_type any_fixed = some the_fixed
fixed_type _ = none

abbrev instance_type : GpuAny → Option GpuInstance
instance_type any_instance = some the_instance
instance_type _ = none

abbrev with_index {ℓ} : {C : Type ℓ} → ℕ → Option C → Option (GpuColumn C)
with_index i none = none
with_index i (some t) = some (record { index = i; column_type = t })

unfoldable pub try_advice : GpuColumn GpuAny → Option (GpuColumn GpuAdvice)
try_advice c = with_index c.index (advice_type c.column_type)

unfoldable pub try_fixed : GpuColumn GpuAny → Option (GpuColumn GpuFixed)
try_fixed c = with_index c.index (fixed_type c.column_type)

unfoldable pub try_instance : GpuColumn GpuAny → Option (GpuColumn GpuInstance)
try_instance c = with_index c.index (instance_type c.column_type)

-- `query_cell` of each column type; a query has no index before it is registered.
module _ {ℓ} {F : Type ℓ} where
  unfoldable pub query_advice : GpuAdvice → ℕ → Rotation → GpuExpression F
  query_advice a i at =
      advice (record { index = none; column_index = i; rotation = at; phase = a.phase })

  unfoldable pub query_fixed : GpuFixed → ℕ → Rotation → GpuExpression F
  query_fixed _ i at = fixed (record { index = none; column_index = i; rotation = at })

  unfoldable pub query_instance : GpuInstance → ℕ → Rotation → GpuExpression F
  query_instance _ i at = instance_query (record { index = none; column_index = i; rotation = at })

  unfoldable pub query_any : GpuAny → ℕ → Rotation → GpuExpression F
  query_any (any_advice a) i at =
      advice (record { index = none; column_index = i; rotation = at; phase = a.phase })
  query_any any_fixed i at = fixed (record { index = none; column_index = i; rotation = at })
  query_any any_instance i at =
      instance_query (record { index = none; column_index = i; rotation = at })

  -- `GpuColumn::query_cell`
  unfoldable pub query_cell {κ} :
      {C : Type κ} → (C → ℕ → Rotation → GpuExpression F) → GpuColumn C → Rotation → GpuExpression F
  query_cell query c at = query c.column_type c.index at
