-- ===== src/Exposure/Cover.antt =====
-- The rounds of `from_config` of src/dwarf_alpaca/dwarf/exposure.py keep the shortest entry of an index.
use dwarf_alp.Prelude.{
  ◌≤◌, ◌≡◌, refl, subst, sym, ap, ◌∙◌, false, List, [], ◌∷◌, arith, Bool-cases, inl, inr, ◌⊎◌,
}
use mathlib.Core.List.{Memᴰ}
use mathlib.Core.List.Memᴰ
use dwarf_alp.Exposure.Floats.{Python, Ordered}
use dwarf_alp.Exposure.Resolver.{eq_ℤ, add_option, add_options}
use dwarf_alp.Exposure.Positive.{IsPositive, AllPositive}
use dwarf_alp.Exposure.Rounds.{Entry, if-Mem, shorter, add_option-from, eq_ℤ-eq}

module _ {F : Type 0} (py : Python F) (ord : Ordered py) where
  pub lt-rank :
      (a b : Entry py)
      → IsPositive py a
      → IsPositive py b
      → py.lt a.seconds b.seconds ≡ false
      → ord.rank b.seconds ≤ ord.rank a.seconds
  lt-rank a b p q h = ground (arith, h, ord.lt_rank a.seconds b.seconds p.0 q.0)

  pub rank-lt :
      (a b : Entry py)
      → IsPositive py a
      → IsPositive py b
      → ord.rank b.seconds ≤ ord.rank a.seconds
      → py.lt a.seconds b.seconds ≡ false
  rank-lt a b p q h = ground (arith, h, ord.lt_rank a.seconds b.seconds p.0 q.0)

  -- The table has an entry of the option's index that is not longer.
  abbrev pub Covers : List (Entry py) → Entry py → Type 0
  Covers table o =
      (p : Entry py) × Memᴰ p table
      × (p.index ≡ o.index)
      × (ord.rank p.seconds ≤ ord.rank o.seconds)

  shorter-rank :
      (o x : Entry py)
      → IsPositive py o
      → IsPositive py x
      → (ord.rank (shorter py o x).seconds ≤ ord.rank o.seconds)
        × (ord.rank (shorter py o x).seconds ≤ ord.rank x.seconds)
  shorter-rank o x p q = ground (arith, ord.lt_rank o.seconds x.seconds p.0 q.0)

  shorter-index : (o x : Entry py) → x.index ≡ o.index → (shorter py o x).index ≡ o.index
  shorter-index o x h = ground (arith, h)

  Covers-trans :
      (table : List (Entry py)) (p q : Entry py)
      → p.index ≡ q.index
      → ord.rank p.seconds ≤ ord.rank q.seconds
      → Covers table p
      → Covers table q
  Covers-trans table p q i r (t, m, j, s) = (t, m, j ∙ i, omega arith)

  add_option-Covers :
      (o : Entry py) (table : List (Entry py))
      → IsPositive py o
      → AllPositive py table
      → Covers (add_option py o table) o
  unfolding add_option
  add_option-Covers o [] po pt = (o, Memᴰ.head refl, refl, omega arith)
  add_option-Covers o (x ∷ xs) po pt =
      let replaced = shorter py o x ∷ xs in
      let kept = x ∷ add_option py o xs in
      let b = eq_ℤ x.index o.index in
      elim (Bool-cases b) [
        | inl e ↦ (
          shorter py o x,
          if-Mem py b (shorter py o x) replaced kept (λ f. Memᴰ.head refl)
              (λ f. absurd (cc (e, f))),
          shorter-index o x (eq_ℤ-eq x.index o.index e),
          (shorter-rank o x po (pt x (Memᴰ.head refl))).0,
        )
        | inr e ↦
            let (p, m, i, r) = add_option-Covers o xs po (λ q k. pt q (Memᴰ.tail k)) in
            (p, if-Mem py b p replaced kept (λ f. absurd (cc (e, f))) (λ f. Memᴰ.tail m), i, r)
      ]

  add_option-keeps :
      (o : Entry py) (table : List (Entry py))
      → IsPositive py o
      → AllPositive py table
      → (p : Entry py) → Memᴰ p table
      → Covers (add_option py o table) p
  unfolding add_option
  add_option-keeps o [] po pt p m = absurd (Memᴰ.not-nil m)
  add_option-keeps o (x ∷ xs) po pt p m =
      let replaced = shorter py o x ∷ xs in
      let kept = x ∷ add_option py o xs in
      let b = eq_ℤ x.index o.index in
      elim (Bool-cases b) [
        | inl e ↦ elim m [
          | Memᴰ.head q ↦ (
            shorter py o x,
            if-Mem py b (shorter py o x) replaced kept (λ f. Memᴰ.head refl)
                (λ f. absurd (cc (e, f))),
            shorter-index o x (eq_ℤ-eq x.index o.index e)
                ∙ sym (eq_ℤ-eq x.index o.index e)
                ∙ ap (λ (t : Entry py). t.index) (sym q),
            subst (λ (t : Entry py). ord.rank (shorter py o x).seconds ≤ ord.rank t.seconds) (sym q)
                (shorter-rank o x po (pt x (Memᴰ.head refl))).1,
          )
          | Memᴰ.tail k ↦ (
            p,
            if-Mem py b p replaced kept (λ f. Memᴰ.tail k) (λ f. absurd (cc (e, f))),
            refl,
            omega arith,
          )
        ]
        | inr e ↦ elim m [
          | Memᴰ.head q ↦ (
            p,
            if-Mem py b p replaced kept (λ f. absurd (cc (e, f))) (λ f. Memᴰ.head q),
            refl,
            omega arith,
          )
          | Memᴰ.tail k ↦
              let (t, n, i, r) = add_option-keeps o xs po (λ q j. pt q (Memᴰ.tail j)) p k in
              (t, if-Mem py b t replaced kept (λ f. absurd (cc (e, f))) (λ f. Memᴰ.tail n), i, r)
        ]
      ]

  add_option-AllPositive :
      (o : Entry py) (table : List (Entry py))
      → IsPositive py o
      → AllPositive py table
      → AllPositive py (add_option py o table)
  add_option-AllPositive o table po pt p m = elim (add_option-from py o table p m) [
    | inl q ↦ subst (IsPositive py) (sym q) po
    | inr k ↦ pt p k
  ]

  pub add_options-Covers :
      (options table : List (Entry py))
      → AllPositive py options
      → AllPositive py table
      → (o : Entry py) → Memᴰ o options ⊎ Memᴰ o table
      → Covers (add_options py options table) o
  unfolding add_options
  add_options-Covers [] table po pt o (inl m) = absurd (Memᴰ.not-nil m)
  add_options-Covers [] table po pt o (inr m) = (o, m, refl, omega arith)
  add_options-Covers (x ∷ xs) table po pt o h =
      let px = po x (Memᴰ.head refl) in
      let table' = add_option py x table in
      let pxs : AllPositive py xs = λ q k. po q (Memᴰ.tail k) in
      let later = add_options-Covers xs table' pxs (add_option-AllPositive x table px pt) in
      let through : Covers table' o → Covers (add_options py xs table') o =
        λ (t, m, i, r). Covers-trans (add_options py xs table') t o i r (later t (inr m)) in
      elim h [
        | inl (Memᴰ.head q) ↦
            through (subst (Covers table') (sym q) (add_option-Covers x table px pt))
        | inl (Memᴰ.tail k) ↦ later o (inl k)
        | inr k ↦ through (add_option-keeps x table px pt o k)
      ]
