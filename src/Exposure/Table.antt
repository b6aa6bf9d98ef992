-- ===== src/Exposure/Table.antt =====
-- The table that `from_config` of src/dwarf_alpaca/dwarf/exposure.py makes.
use dwarf_alp.Prelude.{
  ◌≡◌, refl, subst, sym, true, false, Option, none, some, List, [], ◌∷◌, arith, inl, inr,
  if◌then◌else◌, Bool, ◌≢◌,
}
use mathlib.Core.List.{Memᴰ, cons≢nil}
use mathlib.Core.List.Memᴰ
use dwarf_alp.Exposure.Json.{Json}
use dwarf_alp.Exposure.Floats.{Python, Ordered}
use dwarf_alp.Exposure.Options.{ExposureOption, config_options}
use dwarf_alp.Exposure.Resolver.{add_options, insert, sorted, from_config}
use dwarf_alp.Exposure.Positive.{IsPositive, AllPositive, config_options-AllPositive}
use dwarf_alp.Exposure.Rounds.{
  Entry, Once, InOrder, add_options-from, add_options-Once, insert-from, sorted-from, sorted-into,
  sorted-Once,
}
use dwarf_alp.Exposure.Cover.{lt-rank, rank-lt, Covers, add_options-Covers}

module _ {F : Type 0} (py : Python F) where
  if-InOrder :
      (b : Bool) (xs ys : List (Entry py))
      → (b ≡ true → InOrder py xs)
      → (b ≡ false → InOrder py ys)
      → InOrder py (if b then xs else ys)
  if-InOrder true xs ys f g = f refl
  if-InOrder false xs ys f g = g refl

  module _ (ord : Ordered py) where
    insert-InOrder :
        (o : Entry py) (xs : List (Entry py))
        → IsPositive py o
        → AllPositive py xs
        → InOrder py xs
        → InOrder py (insert py o xs)
    unfolding insert
    insert-InOrder o [] po px h = (λ p m. absurd (Memᴰ.not-nil m), tt)
    insert-InOrder o (x ∷ xs) po pxs (first, rest) =
        let px = pxs x (Memᴰ.head refl) in
        let later = insert-InOrder o xs po (λ p k. pxs p (Memᴰ.tail k)) rest in
        if-InOrder (py.lt x.seconds o.seconds) (x ∷ insert py o xs) (o ∷ x ∷ xs)
          (λ e. (
            λ p m. elim (insert-from py o xs p m) [
              | inl q ↦
                  subst (λ (t : Entry py). py.lt t.seconds x.seconds ≡ false) (sym q)
                    (ground (
                      arith,
                      e,
                      ord.lt_rank x.seconds o.seconds px.0 po.0,
                      ord.lt_rank o.seconds x.seconds po.0 px.0,
                    ))
              | inr k ↦ first p k
            ],
            later,
          ))
          (λ e. (
            λ p m. elim m [
              | Memᴰ.head q ↦ subst (λ (t : Entry py). py.lt t.seconds o.seconds ≡ false) (sym q) e
              | Memᴰ.tail k ↦
                  let pp = pxs p (Memᴰ.tail k) in
                  let low = lt-rank py ord x o px po e in
                  let high = lt-rank py ord p x pp px (first p k) in
                  rank-lt py ord p o pp po (omega arith)
            ],
            (first, rest),
          ))

    sorted-InOrder : (xs : List (Entry py)) → AllPositive py xs → InOrder py (sorted py xs)
    unfolding sorted
    sorted-InOrder [] h = tt
    sorted-InOrder (x ∷ xs) h =
        insert-InOrder x (sorted py xs) (h x (Memᴰ.head refl))
          (λ p m. h p (Memᴰ.tail (sorted-from py xs p m)))
          (sorted-InOrder xs (λ p k. h p (Memᴰ.tail k)))

  -- What a table holds of the options found: only such options, each index once, in the order of
  -- their durations, all of them positive numbers; and each option found has an entry of its index
  -- that is not longer.
  pub record IsTable (found table : List (ExposureOption F)) : Type 0 where
    pub filled : table ≢ []
    pub from : (p : ExposureOption F) → Memᴰ p table → Memᴰ p found
    pub positive : AllPositive py table
    pub once : Once py table
    pub in_order : InOrder py table
    pub shortest :
        (o : ExposureOption F)
        → Memᴰ o found
        → (p : ExposureOption F) × Memᴰ p table
          × (p.index ≡ o.index)
          × (py.lt o.seconds p.seconds ≡ false)

  -- What `from_config` returns for the options found.
  abbrev pub Resolved : List (ExposureOption F) → Option (List (ExposureOption F)) → Type 0
  Resolved found none = found ≡ []
  Resolved found (some table) = IsTable found table

  module _ (ord : Ordered py) (found : List (Entry py)) (positive : AllPositive py found) where
    abbrev raw : List (Entry py)
    raw = add_options py found []

    from-found : (p : Entry py) → Memᴰ p raw → Memᴰ p found
    from-found p m = elim (add_options-from py found [] p m) [
      | inl k ↦ k
      | inr k ↦ absurd (Memᴰ.not-nil k)
    ]

    Covers-found : (o : Entry py) → Memᴰ o found → Covers py ord raw o
    Covers-found o m =
        add_options-Covers py ord found [] positive (λ p k. absurd (Memᴰ.not-nil k)) o (inl m)

    raw-positive : AllPositive py raw
    raw-positive p m = positive p (from-found p m)

    sorted-IsTable : sorted py raw ≢ [] → IsTable found (sorted py raw)
    sorted-IsTable filled = record {
      filled = filled;
      from = λ p m. from-found p (sorted-from py raw p m);
      positive = λ p m. raw-positive p (sorted-from py raw p m);
      once = sorted-Once py raw (add_options-Once py found [] tt);
      in_order = sorted-InOrder ord raw raw-positive;
      shortest = λ o m.
          let (p, k, i, r) = Covers-found o m in
          (p, sorted-into py raw p k, i, rank-lt py ord o p (positive o m) (raw-positive p k) r);
    }

    found-nil : sorted py raw ≡ [] → found ≡ []
    found-nil e = go found Covers-found
      where
        go : (f : List (Entry py)) → ((o : Entry py) → Memᴰ o f → Covers py ord raw o) → f ≡ []
        go [] h = refl
        go (o ∷ rest) h =
            let (p, k, i, r) = h o (Memᴰ.head refl) in
            absurd (Memᴰ.not-nil (subst (Memᴰ p) e (sorted-into py raw p k)))

  -- Where `from_config` returns no table the configuration has no option. Otherwise its table is not
  -- empty, holds only options found there, each index once, ordered by duration, all durations
  -- positive, and for every option found an entry of the same index that is not longer. This is for
  -- floating-point numbers that are ordered except for NaN, and where a quotient of two integers times
  -- 1.0 or 0.001 is not NaN.
  pub from_config-Resolved :
      (ord : Ordered py) (config : Json F)
      → Resolved (config_options py config) (from_config py config)
  unfolding from_config
  from_config-Resolved ord config =
      let found = config_options py config in
      let positive = config_options-AllPositive py ord config in
      go found (sorted py (raw ord found positive)) (sorted-IsTable ord found positive)
        (found-nil ord found positive)
    where
      go :
          (found t : List (ExposureOption F))
          → (t ≢ [] → IsTable found t)
          → (t ≡ [] → found ≡ [])
          → Resolved found (elim t [ [] ↦ none | first ∷ rest ↦ some (first ∷ rest) ])
      go found [] f g = g refl
      go found (first ∷ rest) f g = f cons≢nil
