-- ===== src/Circuit/System/Recorded.antt =====
-- halo2_proofs/src/plonk/circuit.rs: the degrees that `compress_selectors` records for the selectors.
use halo2_gpu.Common.{
  ℕ, zero, suc, max, ◌≤◌, ◌<◌, ◌≡◌, refl, sym, ap, ◌∙◌, subst, Bool, true, false, Option, none,
  some, List, [], ◌∷◌, length, get_elem?, if◌then◌else◌, ◌⊎◌, inl, inr, arith,
}
use mathlib.Core.Option.{some-injective}
use halo2_gpu.Common.Grid.{get_elem?_lt}
use halo2_gpu.Circuit.{GpuSelector}
use halo2_gpu.Circuit.Expression.{GpuExpression, selector, negated, sum, product, scaled, degree}
use halo2_gpu.Circuit.Expression.Selectors.{extract_simple_selector, join_selectors, IsWellFormed}
use halo2_gpu.Circuit.System.Compress.{raise, raise_found, selector_degrees}
use halo2_gpu.Circuit.System.Valid.{AllOf}

-- A found selector is simple, among those of the given kinds.
abbrev pub Found : List Bool → Option (Option GpuSelector) → Type 0
Found kinds (some (some s)) = get_elem? kinds s.index ≡ some true
Found kinds _ = Unit

join-Found :
    (kinds : List Bool) (p q : Option (Option GpuSelector))
    → Found kinds p
    → Found kinds q
    → Found kinds (join_selectors p q)
join-Found kinds none q hp hq = tt
join-Found kinds (some none) none hp hq = tt
join-Found kinds (some none) (some b) hp hq = hq
join-Found kinds (some (some s)) none hp hq = tt
join-Found kinds (some (some s)) (some none) hp hq = hp
join-Found kinds (some (some s)) (some (some t)) hp hq = tt

simple-Found :
    (kinds : List Bool) (s : GpuSelector) (b : Bool)
    → s.is_simple ≡ b
    → get_elem? kinds s.index ≡ some s.is_simple
    → Found kinds (some (if b then some s else none))
simple-Found kinds s true e h = h ∙ ap some e
simple-Found kinds s false e h = tt

module _ {ℓ} {F : Type ℓ} where
  -- The selectors of the expression are of the given kinds: true for simple ones.
  abbrev pub IsKinded : List Bool → GpuExpression F → Type 0
  IsKinded kinds (selector s) = get_elem? kinds s.index ≡ some s.is_simple
  IsKinded kinds (negated a) = IsKinded kinds a
  IsKinded kinds (sum a b) = IsKinded kinds a × IsKinded kinds b
  IsKinded kinds (product a b) = IsKinded kinds a × IsKinded kinds b
  IsKinded kinds (scaled a k) = IsKinded kinds a
  IsKinded kinds _ = Unit

  pub extract-Found :
      (kinds : List Bool) (e : GpuExpression F)
      → IsKinded kinds e
      → Found kinds (extract_simple_selector e)
  unfolding extract_simple_selector
  extract-Found kinds (selector s) h = simple-Found kinds s s.is_simple refl h
  extract-Found kinds (negated a) h = extract-Found kinds a h
  extract-Found kinds (scaled a k) h = extract-Found kinds a h
  extract-Found kinds (sum a b) h =
      join-Found kinds (extract_simple_selector a) (extract_simple_selector b)
        (extract-Found kinds a h.0) (extract-Found kinds b h.1)
  extract-Found kinds (product a b) h =
      join-Found kinds (extract_simple_selector a) (extract_simple_selector b)
        (extract-Found kinds a h.0) (extract-Found kinds b h.1)
  extract-Found kinds _ h = tt

-- What `raise` returns: at the index the greater of the two, and the same elsewhere.
abbrev Raised : List ℕ → ℕ → ℕ → List ℕ → Type 0
Raised ns i d ms =
    (raise ns i d ≡ some ms)
    × (length ms ≡ length ns)
    × ((j m : ℕ)
        → get_elem? ms j ≡ some m
        → (n : ℕ) × (get_elem? ns j ≡ some n)
          × (n ≤ m)
          × (i ≡ j → d ≤ m)
          × ((m ≡ n) ⊎ ((i ≡ j) × (m ≡ d))))

raise_lem : (ns : List ℕ) (i d : ℕ) → i < length ns → (ms : List ℕ) × Raised ns i d ms
raise_lem [] i d h = absurd (omega arith)
raise_lem (n ∷ ns) zero d h = (max n d ∷ ns, (refl, refl, at))
  where
    at :
        (j m : ℕ)
        → get_elem? (max n d ∷ ns) j ≡ some m
        → (n' : ℕ) × (get_elem? (n ∷ ns) j ≡ some n')
          × (n' ≤ m)
          × (0 ≡ j → d ≤ m)
          × ((m ≡ n') ⊎ ((0 ≡ j) × (m ≡ d)))
    at zero m k =
        let e : max n d ≡ m = some-injective _ m k in
        (n, refl, omega (arith, e), (λ _. omega (arith, e)), ground (arith, e))
    at (suc j) m k = (m, k, omega arith, (λ e. absurd (omega (arith, e))), inl refl)
raise_lem (n ∷ ns) (suc i) d h =
    let (ms, (p, l, g)) = raise_lem ns i d (omega arith) in (n ∷ ms, (rw (p), ap suc l, at ms g))
  where
    at :
        (ms : List ℕ)
        → ((j m : ℕ)
            → get_elem? ms j ≡ some m
            → (n' : ℕ) × (get_elem? ns j ≡ some n')
              × (n' ≤ m)
              × (i ≡ j → d ≤ m)
              × ((m ≡ n') ⊎ ((i ≡ j) × (m ≡ d))))
        → (j m : ℕ) → get_elem? (n ∷ ms) j ≡ some m
        → (n' : ℕ) × (get_elem? (n ∷ ns) j ≡ some n')
          × (n' ≤ m)
          × (suc i ≡ j → d ≤ m)
          × ((m ≡ n') ⊎ ((suc i ≡ j) × (m ≡ d)))
    at ms g zero m k = (
      n,
      refl,
      omega (arith, some-injective n m k),
      (λ e. absurd (omega (arith, e))),
      inl (sym (some-injective n m k)),
    )
    at ms g (suc j) m k =
        let (n', p, q, r, t) = g j m k in
        (
          n',
          p,
          q,
          (λ e. r (omega (arith, e))),
          elim t [ inl e ↦ inl e | inr (e, f) ↦ inr (ap suc e, f) ],
        )

-- The degrees are bounded, and zero for complex selectors.
abbrev pub IsBounded : List Bool → ℕ → List ℕ → Type 0
IsBounded kinds d ds =
    (length ds ≡ length kinds)
    × ((j m : ℕ) → get_elem? ds j ≡ some m → (m ≤ d) × (get_elem? kinds j ≡ some false → m ≡ 0))

abbrev IsRaised : List ℕ → List ℕ → Type 0
IsRaised ds ds' =
    (j m : ℕ) → get_elem? ds' j ≡ some m → (n : ℕ) × (get_elem? ds j ≡ some n) × (n ≤ m)

module _ {ℓ} {F : Type ℓ} (kinds : List Bool) (d : ℕ) where
  -- What a gate's polynomial has to be.
  abbrev pub IsUsable : GpuExpression F → Type 0
  IsUsable e = IsWellFormed e × IsKinded kinds e × (degree e ≤ d)

  -- The degree is recorded for the polynomial's simple selector.
  abbrev pub IsRecorded : List ℕ → GpuExpression F → Type 0
  IsRecorded ds e =
      (s : GpuSelector) (m : ℕ)
      → extract_simple_selector e ≡ some (some s)
      → get_elem? ds s.index ≡ some m
      → degree e ≤ m

  abbrev Step : GpuExpression F → List ℕ → Option GpuSelector → Type 0
  Step e ds found =
      (ds' : List ℕ) × (raise_found found (degree e) ds ≡ some ds')
      × IsBounded kinds d ds'
      × IsRaised ds ds'
      × ((s : GpuSelector) (m : ℕ) → found ≡ some s → get_elem? ds' s.index ≡ some m → degree e ≤ m)

  step_lem :
      (e : GpuExpression F) (ds : List ℕ) (found : Option GpuSelector)
      → degree e ≤ d
      → Found kinds (some found)
      → IsBounded kinds d ds
      → Step e ds found
  step_lem e ds none b f v = (ds, refl, v, (λ j m k. (m, k, omega arith)), (λ s m k. absurd (cc)))
  step_lem e ds (some s) b f v =
      let within = get_elem?_lt kinds s.index true f in
      let (ds', (p, l, g)) = raise_lem ds s.index (degree e) (omega (arith, within, v.0)) in
      (
        ds',
        p,
        (
          l ∙ v.0,
          (λ j m k.
              (let (n, q, _, _, t) = g j m k in
                let (bound, none_yet) = v.1 j n q in
                elim t [
                  | inl r ↦ (omega (arith, r, bound), (λ c. r ∙ none_yet c))
                  | inr (r, r') ↦
                      (omega (arith, r', b), (λ c. absurd (cc (f, c, ap (get_elem? kinds) r))))
                ])),
        ),
        (λ j m k. let (n, q, le, _, _) = g j m k in (n, q, le)),
        (λ t m h k.
            (let e' : s ≡ t = some-injective s t h in
              (g t.index m k).3 (ap (λ (z : GpuSelector). z.index) e'))),
      )

  abbrev pub Records : List (GpuExpression F) → List ℕ → List ℕ → Type 0
  Records es ds ds' =
      (selector_degrees es ds ≡ some ds')
      × IsBounded kinds d ds'
      × IsRaised ds ds'
      × AllOf (IsRecorded ds') es

  -- The first polynomial, and then the others.
  Records-first :
      (e : GpuExpression F) (es : List (GpuExpression F)) (ds : List ℕ)
      (o : Option (Option GpuSelector))
      → extract_simple_selector e ≡ o
      → IsUsable e
      → IsBounded kinds d ds
      → ((ds1 : List ℕ) → IsBounded kinds d ds1 → (ds' : List ℕ) × Records es ds1 ds')
      → (ds' : List ℕ) × Records (e ∷ es) ds ds'
  Records-first e es ds none p u v rest = absurd (u.0 p)
  Records-first e es ds (some found) p u v rest =
      let (ds1, q, v1, r1, rec) =
        step_lem e ds found u.2 (subst (Found kinds) p (extract-Found kinds e u.1)) v in
      let (ds', (q', v', r', recs)) = rest ds1 v1 in
      (
        ds',
        (
          rw (p, q, q'),
          v',
          (λ j m k.
              (let (n, a, b) = r' j m k in
                let (n', a', b') = r1 j n a in (n', a', omega (arith, b, b')))),
          (
            (λ s m h k.
                (let (n, a, b) = r' s.index m k in
                  let same : found ≡ some s = some-injective found (some s) (sym p ∙ h) in
                  omega (arith, b, rec s n same a))),
            recs,
          ),
        ),
      )

  pub selector_degrees_lem :
      (es : List (GpuExpression F)) (ds : List ℕ)
      → AllOf IsUsable es
      → IsBounded kinds d ds
      → (ds' : List ℕ) × Records es ds ds'
  selector_degrees_lem [] ds h v = (ds, (refl, v, (λ j m k. (m, k, omega arith)), tt))
  selector_degrees_lem (e ∷ es) ds h v =
      Records-first e es ds (extract_simple_selector e) refl h.0 v
        (λ ds1 v1. selector_degrees_lem es ds1 h.1 v1)
