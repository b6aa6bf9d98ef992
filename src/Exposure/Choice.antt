-- ===== src/Exposure/Choice.antt =====
-- `choose_option` and `choose_index` of src/dwarf_alpaca/dwarf/exposure.py find the nearest option.
use dwarf_alp.Prelude.{
  ◌≤◌, ◌≡◌, refl, subst, ap, sym, ◌≢◌, Bool, true, false, some, List, [], ◌∷◌, arith, if◌then◌else◌,
  Bool-cases, inl, inr,
}
use mathlib.Core.List.{Memᴰ}
use mathlib.Core.List.Memᴰ
use dwarf_alp.Exposure.Floats.{Python, Ordered, le}
use dwarf_alp.Exposure.Options.{ExposureOption}
use dwarf_alp.Exposure.Resolver.{nearer, nearest, choose_option, choose_index}

module _ {F : Type 0} (py : Python F) where
  -- A duration and its distance to the target are numbers.
  abbrev pub IsMeasured : F → ExposureOption F → Type 0
  IsMeasured target o =
      (py.is_nan o.seconds ≡ false) × (py.is_nan (py.abs_sub o.seconds target) ≡ false)

  -- No option is nearer to the target, and of those as near none is shorter.
  abbrev pub IsNearest : F → List (ExposureOption F) → ExposureOption F → Type 0
  IsNearest target options chosen =
      (p : ExposureOption F)
      → Memᴰ p options
      → (py.lt (py.abs_sub p.seconds target) (py.abs_sub chosen.seconds target) ≡ false)
        × (py.eq (py.abs_sub p.seconds target) (py.abs_sub chosen.seconds target) ≡ true
            → py.lt p.seconds chosen.seconds ≡ false)

  module _ (ord : Ordered py) (target : F) where
    -- The order of the keys by rank.
    abbrev Closer : ExposureOption F → ExposureOption F → Type 0
    Closer a b =
        (ord.rank (py.abs_sub a.seconds target) ≤ ord.rank (py.abs_sub b.seconds target))
        × (ord.rank (py.abs_sub a.seconds target) ≡ ord.rank (py.abs_sub b.seconds target)
            → ord.rank a.seconds ≤ ord.rank b.seconds)

    Closer-refl : (a : ExposureOption F) → Closer a a
    Closer-refl a = (omega arith, λ e. omega arith)

    Closer-trans : (a b c : ExposureOption F) → Closer a b → Closer b c → Closer a c
    Closer-trans a b c (p, q) (r, s) =
        (omega arith, λ e. omega (arith, q (omega arith), s (omega arith)))

    Closer-of_nearer :
        (a b : ExposureOption F)
        → IsMeasured target a
        → IsMeasured target b
        → nearer py target a b ≡ true
        → Closer a b
    unfolding nearer
    Closer-of_nearer a b (ma, da) (mb, db) h =
        let x = py.abs_sub a.seconds target in
        let y = py.abs_sub b.seconds target in
        let e = ord.eq_rank x y da db in
        let l = ord.lt_rank x y da db in
        let s = ord.lt_rank a.seconds b.seconds ma mb in
        (ground (arith, h, e, l, s), λ q. ground (arith, h, e, l, s, q))

    Closer-of_not_nearer :
        (a b : ExposureOption F)
        → IsMeasured target a
        → IsMeasured target b
        → nearer py target a b ≡ false
        → Closer b a
    unfolding nearer
    Closer-of_not_nearer a b (ma, da) (mb, db) h =
        let x = py.abs_sub a.seconds target in
        let y = py.abs_sub b.seconds target in
        let e = ord.eq_rank x y da db in
        let l = ord.lt_rank x y da db in
        let s = ord.lt_rank a.seconds b.seconds ma mb in
        (ground (arith, h, e, l, s), λ q. ground (arith, h, e, l, s, q))

    nearest-Mem :
        (best : ExposureOption F) (rest : List (ExposureOption F))
        → Memᴰ (nearest py target best rest) (best ∷ rest)
    unfolding nearest
    nearest-Mem best [] = Memᴰ.head refl
    nearest-Mem best (option ∷ rest) = elim (Bool-cases (nearer py target option best)) [
      | inl e ↦ rw e (Memᴰ.tail (nearest-Mem option rest))
      | inr e ↦ rw e (elim (nearest-Mem best rest) [
        | Memᴰ.head q ↦ Memᴰ.head q
        | Memᴰ.tail m ↦ Memᴰ.tail (Memᴰ.tail m)
      ])
    ]

    nearest-Closer :
        (best : ExposureOption F) (rest : List (ExposureOption F))
        → ((p : ExposureOption F) → Memᴰ p (best ∷ rest) → IsMeasured target p)
        → (p : ExposureOption F) → Memᴰ p (best ∷ rest)
        → Closer (nearest py target best rest) p
    unfolding nearest
    nearest-Closer best [] measured p (Memᴰ.head e) = subst (Closer best) (sym e) (Closer-refl best)
    nearest-Closer best [] measured p (Memᴰ.tail m) = absurd (Memᴰ.not-nil m)
    nearest-Closer best (option ∷ rest) measured p m =
        let mb = measured best (Memᴰ.head refl) in
        let round = λ (b : Bool). nearest py target (if b then option else best) rest in
        let mo = measured option (Memᴰ.tail (Memᴰ.head refl)) in
        elim (Bool-cases (nearer py target option best)) [
          | inl e ↦
              let after = nearest-Closer option rest (λ q k. measured q (Memᴰ.tail k)) in
              let c = nearest py target option rest in
              let cb =
                Closer-trans c option best (after option (Memᴰ.head refl))
                  (Closer-of_nearer option best mo mb e) in
              subst (λ d. Closer d p) (ap round (sym e))
                (elim m [ Memᴰ.head q ↦ subst (Closer c) (sym q) cb | Memᴰ.tail k ↦ after p k ])
          | inr e ↦
              let after = nearest-Closer best rest (λ q k. measured q (drop_second k)) in
              let c = nearest py target best rest in
              let co =
                Closer-trans c best option (after best (Memᴰ.head refl))
                  (Closer-of_not_nearer option best mo mb e) in
              subst (λ d. Closer d p) (ap round (sym e))
                (elim m [
                  | Memᴰ.head q ↦ after p (Memᴰ.head q)
                  | Memᴰ.tail (Memᴰ.head q) ↦ subst (Closer c) (sym q) co
                  | Memᴰ.tail (Memᴰ.tail k) ↦ after p (Memᴰ.tail k)
                ])
        ]
      where
        drop_second : {q : ExposureOption F} → Memᴰ q (best ∷ rest) → Memᴰ q (best ∷ option ∷ rest)
        drop_second (Memᴰ.head q) = Memᴰ.head q
        drop_second (Memᴰ.tail k) = Memᴰ.tail (Memᴰ.tail k)

  -- Where the requested duration is positive and the table is not empty, `choose_option` returns one
  -- of the table's options; no option is nearer to the requested duration, and of those as near none
  -- is shorter. `choose_index` returns its index. This is for floating-point numbers that are ordered
  -- except for NaN, and where a quotient of two integers times 1.0 or 0.001 is not NaN, and for options
  -- whose durations and distances to the request are not NaN.
  pub choose_option-IsNearest :
      Ordered py
      → (options : List (ExposureOption F)) (duration : F) → options ≢ []
      → le py duration py.float_zero ≡ false
      → ((p : ExposureOption F) → Memᴰ p options → IsMeasured duration p)
      → (chosen : ExposureOption F) × (choose_option py options duration ≡ some chosen)
        × (choose_index py options duration ≡ some chosen.index)
        × Memᴰ chosen options
        × IsNearest duration options chosen
  unfolding choose_option choose_index
  choose_option-IsNearest ord [] duration filled positive measured = absurd (filled refl)
  choose_option-IsNearest ord (option ∷ rest) duration filled positive measured =
      let chosen = nearest py duration option rest in
      let mc = measured chosen (nearest-Mem ord duration option rest) in
      (
        chosen,
        rw positive refl,
        ground (arith, positive),
        nearest-Mem ord duration option rest,
        λ p m.
            let mp = measured p m in
            let closer = nearest-Closer ord duration option rest measured p m in
            let distance : F → F = λ s. py.abs_sub s duration in
            (
              ground (
                arith,
                closer.0,
                ord.lt_rank (distance p.seconds) (distance chosen.seconds) mp.1 mc.1,
              ),
              λ e. ground (
                arith,
                e,
                closer.1 (
                    ground (
                      arith,
                      e,
                      ord.eq_rank (distance p.seconds) (distance chosen.seconds) mp.1 mc.1,
                    )),
                ord.lt_rank p.seconds chosen.seconds mp.0 mc.0,
              ),
            ),
      )
