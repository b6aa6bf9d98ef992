-- ===== src/Exposure/Rounds.antt =====
-- What the rounds of `from_config` of src/dwarf_alpaca/dwarf/exposure.py do to its table: which entries are in it, and that an index
-- stands there once.
use dwarf_alp.Prelude.{
  ◌≡◌, refl, sym, ap, ◌∙◌, true, false, List, [], ◌∷◌, arith, Bool-cases, inl, inr, ◌⊎◌,
  if◌then◌else◌, Bool, ◌≢◌,
}
use dwarf_alp.Prelude.Int.{ℤ, pos, negsuc}
use mathlib.Core.List.{Memᴰ}
use mathlib.Core.List.Memᴰ
use dwarf_alp.Exposure.Floats.{Python}
use dwarf_alp.Exposure.Options.{ExposureOption}
use dwarf_alp.Exposure.Resolver.{eq_ℤ, add_option, add_options, insert, sorted}

pub eq_ℤ-eq : (a b : ℤ) → eq_ℤ a b ≡ true → a ≡ b
eq_ℤ-eq (pos a) (pos b) h = ground (arith, h)
eq_ℤ-eq (pos a) (negsuc b) h = cc
eq_ℤ-eq (negsuc a) (pos b) h = cc
eq_ℤ-eq (negsuc a) (negsuc b) h = ground (arith, h)

eq_ℤ-refl : (a : ℤ) → eq_ℤ a a ≡ true
eq_ℤ-refl (pos a) = ground arith
eq_ℤ-refl (negsuc a) = ground arith

module _ {F : Type 0} (py : Python F) where
  abbrev pub Entry : Type 0
  Entry = ExposureOption F

  -- In a table each entry's index stands once, and no later entry is shorter.
  abbrev pub Once : List (ExposureOption F) → Type 0
  Once [] = Unit
  Once (x ∷ xs) = ((p : ExposureOption F) → Memᴰ p xs → p.index ≢ x.index) × Once xs

  abbrev pub InOrder : List (ExposureOption F) → Type 0
  InOrder [] = Unit
  InOrder (x ∷ xs) =
      ((p : ExposureOption F) → Memᴰ p xs → py.lt p.seconds x.seconds ≡ false) × InOrder xs

  pub Mem-if :
      (b : Bool) (p : Entry) (xs ys : List Entry)
      → Memᴰ p (if b then xs else ys)
      → ((b ≡ true) × Memᴰ p xs) ⊎ ((b ≡ false) × Memᴰ p ys)
  Mem-if true p xs ys m = inl (refl, m)
  Mem-if false p xs ys m = inr (refl, m)

  pub if-Mem :
      (b : Bool) (p : Entry) (xs ys : List Entry)
      → (b ≡ true → Memᴰ p xs)
      → (b ≡ false → Memᴰ p ys)
      → Memᴰ p (if b then xs else ys)
  if-Mem true p xs ys f g = f refl
  if-Mem false p xs ys f g = g refl

  -- The shorter of two entries of one index.
  abbrev pub shorter : Entry → Entry → Entry
  shorter o x = if py.lt o.seconds x.seconds then o else x

  pub shorter-cases : (o x : Entry) → (shorter o x ≡ o) ⊎ (shorter o x ≡ x)
  shorter-cases o x = elim (Bool-cases (py.lt o.seconds x.seconds)) [
    | inl e ↦ inl (rw e refl)
    | inr e ↦ inr (rw e refl)
  ]

  -- Where an entry of the table comes from when an option is added.
  pub add_option-from :
      (o : Entry) (table : List Entry) (p : Entry)
      → Memᴰ p (add_option py o table)
      → (p ≡ o) ⊎ Memᴰ p table
  unfolding add_option
  add_option-from o [] p m = inl (Memᴰ.eq_of_singleton m)
  add_option-from o (x ∷ xs) p m =
      elim (Mem-if (eq_ℤ x.index o.index) p (shorter o x ∷ xs) (x ∷ add_option py o xs) m) [
        | inl (e, Memᴰ.head q) ↦ elim (shorter-cases o x) [
          | inl s ↦ inl (q ∙ s)
          | inr s ↦ inr (Memᴰ.head (q ∙ s))
        ]
        | inl (e, Memᴰ.tail k) ↦ inr (Memᴰ.tail k)
        | inr (e, Memᴰ.head q) ↦ inr (Memᴰ.head q)
        | inr (e, Memᴰ.tail k) ↦ elim (add_option-from o xs p k) [
          | inl q ↦ inl q
          | inr k' ↦ inr (Memᴰ.tail k')
        ]
      ]

  pub add_options-from :
      (options table : List Entry) (p : Entry)
      → Memᴰ p (add_options py options table)
      → Memᴰ p options ⊎ Memᴰ p table
  unfolding add_options
  add_options-from [] table p m = inr m
  add_options-from (o ∷ rest) table p m = elim (add_options-from rest (add_option py o table) p m) [
    | inl k ↦ inl (Memᴰ.tail k)
    | inr k ↦ elim (add_option-from o table p k) [ inl q ↦ inl (Memᴰ.head q) | inr k' ↦ inr k' ]
  ]

  if-Once :
      (b : Bool) (xs ys : List Entry)
      → (b ≡ true → Once xs)
      → (b ≡ false → Once ys)
      → Once (if b then xs else ys)
  if-Once true xs ys f g = f refl
  if-Once false xs ys f g = g refl

  pub add_option-Once : (o : Entry) (table : List Entry) → Once table → Once (add_option py o table)
  unfolding add_option
  add_option-Once o [] h = (λ p m. absurd (Memᴰ.not-nil m), tt)
  add_option-Once o (x ∷ xs) (first, rest) =
      if-Once (eq_ℤ x.index o.index) (shorter o x ∷ xs) (x ∷ add_option py o xs)
        (λ e. (
          λ p m q. first p m (
              q ∙ elim (shorter-cases o x) [
                | inl s ↦ ap (λ (t : Entry). t.index) s ∙ sym (eq_ℤ-eq x.index o.index e)
                | inr s ↦ ap (λ (t : Entry). t.index) s
              ]),
          rest,
        ))
        (λ e. (
          λ p m. elim (add_option-from o xs p m) [
            | inl q ↦ λ r.
                let same : x.index ≡ o.index = sym r ∙ ap (λ (t : Entry). t.index) q in
                absurd (cc (e, eq_ℤ-refl o.index, same))
            | inr k ↦ first p k
          ],
          add_option-Once o xs rest,
        ))

  pub add_options-Once :
      (options table : List Entry) → Once table → Once (add_options py options table)
  unfolding add_options
  add_options-Once [] table h = h
  add_options-Once (o ∷ rest) table h =
      add_options-Once rest (add_option py o table) (add_option-Once o table h)

  pub insert-from :
      (o : Entry) (table : List Entry) (p : Entry)
      → Memᴰ p (insert py o table)
      → (p ≡ o) ⊎ Memᴰ p table
  unfolding insert
  insert-from o [] p m = inl (Memᴰ.eq_of_singleton m)
  insert-from o (x ∷ xs) p m =
      elim (Mem-if (py.lt x.seconds o.seconds) p (x ∷ insert py o xs) (o ∷ x ∷ xs) m) [
        | inl (e, Memᴰ.head q) ↦ inr (Memᴰ.head q)
        | inl (e, Memᴰ.tail k) ↦ elim (insert-from o xs p k) [
          | inl q ↦ inl q
          | inr k' ↦ inr (Memᴰ.tail k')
        ]
        | inr (e, Memᴰ.head q) ↦ inl q
        | inr (e, Memᴰ.tail k) ↦ inr k
      ]

  pub insert-into :
      (o : Entry) (table : List Entry) (p : Entry)
      → (p ≡ o) ⊎ Memᴰ p table
      → Memᴰ p (insert py o table)
  unfolding insert
  insert-into o [] p (inl q) = Memᴰ.head q
  insert-into o [] p (inr m) = absurd (Memᴰ.not-nil m)
  insert-into o (x ∷ xs) p h =
      if-Mem (py.lt x.seconds o.seconds) p (x ∷ insert py o xs) (o ∷ x ∷ xs)
        (λ e. elim h [
          | inl q ↦ Memᴰ.tail (insert-into o xs p (inl q))
          | inr (Memᴰ.head q) ↦ Memᴰ.head q
          | inr (Memᴰ.tail k) ↦ Memᴰ.tail (insert-into o xs p (inr k))
        ])
        (λ e. elim h [ inl q ↦ Memᴰ.head q | inr k ↦ Memᴰ.tail k ])

  insert-Once :
      (o : Entry) (table : List Entry)
      → ((p : Entry) → Memᴰ p table → p.index ≢ o.index)
      → Once table
      → Once (insert py o table)
  unfolding insert
  insert-Once o [] new h = (λ p m. absurd (Memᴰ.not-nil m), tt)
  insert-Once o (x ∷ xs) new (first, rest) =
      if-Once (py.lt x.seconds o.seconds) (x ∷ insert py o xs) (o ∷ x ∷ xs)
        (λ e. (
          λ p m. elim (insert-from o xs p m) [
            | inl q ↦ λ r. new x (Memᴰ.head refl) (sym r ∙ ap (λ (t : Entry). t.index) q)
            | inr k ↦ first p k
          ],
          insert-Once o xs (λ p k. new p (Memᴰ.tail k)) rest,
        ))
        (λ e. (new, (first, rest)))

  pub sorted-from : (xs : List Entry) (p : Entry) → Memᴰ p (sorted py xs) → Memᴰ p xs
  unfolding sorted
  sorted-from [] p m = m
  sorted-from (x ∷ xs) p m = elim (insert-from x (sorted py xs) p m) [
    | inl q ↦ Memᴰ.head q
    | inr k ↦ Memᴰ.tail (sorted-from xs p k)
  ]

  pub sorted-into : (xs : List Entry) (p : Entry) → Memᴰ p xs → Memᴰ p (sorted py xs)
  unfolding sorted
  sorted-into [] p m = m
  sorted-into (x ∷ xs) p m =
      insert-into x (sorted py xs) p
        (elim m [ Memᴰ.head q ↦ inl q | Memᴰ.tail k ↦ inr (sorted-into xs p k) ])

  pub sorted-Once : (xs : List Entry) → Once xs → Once (sorted py xs)
  unfolding sorted
  sorted-Once [] h = tt
  sorted-Once (x ∷ xs) (first, rest) =
      insert-Once x (sorted py xs) (λ p m. first p (sorted-from xs p m)) (sorted-Once xs rest)
