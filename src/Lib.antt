-- ===== src/Lib.antt =====
-- halo2-axiom-gpu, the Halo2 proving crate with a CUDA prover (halo2_proofs/): models of the host
-- code that decides what is proved, and their properties.
--
-- The program. A circuit is described by expressions over columns (plonk/circuit.rs). Selectors
-- are virtual until they are replaced by expressions over fixed columns. The gates' polynomials
-- are compiled to a calculation graph (plonk/evaluation.rs), which the device runs at every row
-- of the quotient's domain. Witness cells are kept as fractions (plonk/assigned.rs), so that
-- their inversions can be batched. Paths below are relative to halo2_proofs/src/.
--
-- The files.
--   Common        names shared by all modules, tests on numbers, lists, integers, options; Count
--                 has types with a Boolean equality, positions and counts in lists, Grid vectors
--                 of vectors that are written at a pair of indices.
--   Field         the interface `ff::Field`, with the laws that the `ff` crate documents; the
--                 field of five elements is the concrete instance of the examples.
--   Assigned      plonk/assigned.rs: `GpuAssigned<F>`; Value and Equality prove its laws.
--   Circuit       plonk/circuit.rs: selectors, queries and challenges; Expression has
--                 `GpuExpression<F>` with `evaluate`, `evaluate_lazy`, `degree`, `complexity` and
--                 the operators, Selectors the extraction functions, Replace the substitution
--                 inside `replace_selectors_with_fixed`, Value and Degree what it does to values
--                 and degrees.
--   Circuit/Column
--                 plonk/circuit.rs: `GpuAny`, `GpuColumn<C>`, with the order of columns (Order) and
--                 their conversions (Convert).
--   Circuit/CompressSelectors
--                 plonk/circuit/compress_selectors.rs: `process`; Group and Partition for the
--                 choice of the combinations, Root, Rows, Reads, Columns and Degrees for what is
--                 emitted, Plain on the assigned expressions, Process and Fit for the whole.
--   Circuit/System
--                 plonk/circuit.rs: `GpuConstraintSystem`. Queries has the lists of queries, their
--                 indices and `assign_expr_query_indices`, Cells `GpuVirtualCells` and
--                 `query_cells`, Configure gates, lookups and equality, Allocate columns, selectors,
--                 challenges and phases, Rows `degree` and `blinding_factors`. Reached is the
--                 relation of the systems that a configuration reaches; Valid has the invariant,
--                 which Counted, Register, Resolve, Methods, Gates, Kept, Equality and Allocated prove for
--                 each operation; Backfill, Phases and Budget say what follows from it. Compress
--                 has `compress_selectors` and `directly_convert_selectors_to_fixed`; Recorded is
--                 on the degrees that it records, Described and Place on what comes back from
--                 `process`, Replaced on the gates, Compressed on the whole. Substituted
--                 is on the values after the direct conversion, Converted on its whole.
--   Lookup        plonk/lookup.rs: the lookup argument in a constraint system.
--   Permutation   plonk/permutation/keygen.rs: `Assembly` with `new` and `copy`; Cycles and Merge
--                 are on cycles of a permutation, Relabel on the loop of `copy`, Copy has the
--                 invariant that `copy` keeps, Fresh that `new` has it, Linked what any sequence of
--                 calls builds. Permutation/Argument is plonk/permutation.rs.
--   Evaluation    plonk/evaluation.rs: `ValueSource`, `Calculation`, `GraphEvaluator`; Build has
--                 `add_expression`, `for_compress` and the custom gates of `new_inner`, Gates
--                 is on their loop, Run has the host evaluation and the simple one (`evaluate`),
--                 Valid and Sound the invariant, Closed and Compress the whole evaluation, Readable
--                 the inputs on which the simple evaluation has a value, Total the graphs on them.
--
-- Correspondence. A method on `&mut self` returns its result with the new state. A panic, an
-- index out of range, `unreachable!` and `assert!` are the result none. The ten closures of
-- `evaluate` are the record `Closures`. The circuit's own closures, which configure gates and
-- lookups, are functions on the virtual cells; theorems assume of them that they change the system
-- by queries only and make up no index of a query. The environment's variable MAX_DEGREE is an
-- argument. Loops are recursions on lists; only two have a bound on their rounds, which is proved
-- to be enough: the choice of the combinations, the number of the selectors, and the loop of
-- `copy`, the number of the cells. `usize` and `u8` values are natural numbers and `i32` rotations
-- are integers: overflow of these index computations is not modelled. `get_rotation_idx` gives a
-- number also for a size of zero, where the source panics; the theorems on panics exclude it. An
-- error of `copy` carries no state, since the source changes none before it returns one. The
-- closure that allocates fixed columns is a function of the number of its calls, and the system
-- is the one after as many calls as there are combinations.
--
-- Not modelled: the device code and its FFI, the curves, transcripts and hash functions of other
-- crates, the byte layout that the kernels read, and the parts of the crate that are listed as
-- not modelled in the manifest.
pub mod Common
pub mod Field
pub mod Assigned
pub mod Circuit
pub mod Evaluation
pub mod Lookup
pub mod Permutation
