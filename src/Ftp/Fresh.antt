-- ===== src/Ftp/Fresh.antt =====
-- What makes an entry of src/dwarf_alpaca/dwarf/ftp_client.py a new photo: the conditions of
-- `_is_new_entry`, `_is_current_capture` and of the names that `_collect_astro_entries` accepts, stated
-- without the code's tests.
use dwarf_alp.Prelude.{
  ℕ, ◌+◌, ◌-◌, ◌≤◌, ◌<◌, ◌≡◌, ◌≢◌, ◌⊎◌, ◌↔◌, Option-cases, inl, inr, refl, ap, ap₂, sym, ◌∙◌, subst,
  true, false, Option, none, some, [], ◌∷◌, ◌++◌, length, take, drop, take-append-drop, ◌==◌,
  Bool-cases, arith,
}
use dwarf_alp.Exposure.Json.{Text, codes, text_eq}
use dwarf_alp.Ftp.Listing.{FtpPhotoEntry, Parser, starts_with, ends_with, is_raw_frame}
use dwarf_alp.Ftp.Wait.{Wanted, is_new_entry, is_current_capture, is_wanted}

text_eq_refl : (t : Text) → text_eq t t ≡ true
text_eq_refl [] = refl
text_eq_refl (c ∷ t) = ground (arith, text_eq_refl t)

text_eq→ : (t u : Text) → text_eq t u ≡ true → t ≡ u
text_eq→ [] [] h = refl
text_eq→ [] (d ∷ u) h = absurd (cc)
text_eq→ (c ∷ t) [] h = absurd (cc)
text_eq→ (c ∷ t) (d ∷ u) h = elim (Bool-cases (c == d)) [
  | inl q ↦
      ap₂ (λ (x : ℕ) (y : Text). x ∷ y) (ground (arith, q)) (text_eq→ t u (ground (arith, q, h)))
  | inr q ↦ absurd (ground (arith, q, h))
]

starts_with-append : (prefix rest : Text) → starts_with prefix (prefix ++ rest) ≡ true
starts_with-append [] rest = refl
starts_with-append (c ∷ prefix) rest = ground (arith, starts_with-append prefix rest)

-- The text ends with another.
abbrev pub Ends : Text → Text → Type 0
Ends suffix t = (front : Text) × (t ≡ front ++ suffix)

ends_with-Ends : (suffix t : Text) → ends_with suffix t ≡ true → Ends suffix t
ends_with-Ends suffix t h =
    let n = length t - length suffix in
    let e : text_eq (drop n t) suffix ≡ true = ground (arith, h) in
    (
      take n t,
      sym (take-append-drop n t) ∙ ap (λ (u : Text). take n t ++ u) (text_eq→ (drop n t) suffix e),
    )

-- A name is that of a raw frame: in lower case it ends with ".fits" or ".fit", and it does not begin
-- with "stacked".
pub record IsRawName (lower : Text → Text) (name : Text) : Type 0 where
  pub ending : Ends (codes ".fits") (lower name) ⊎ Ends (codes ".fit") (lower name)
  pub unstacked : (rest : Text) → lower name ≢ codes "stacked" ++ rest

pub is_raw_frame-IsRawName :
    (parser : Parser) (name : Text) → is_raw_frame parser name ≡ true → IsRawName parser.lower name
unfolding is_raw_frame
is_raw_frame-IsRawName parser name h = record {
  ending = elim (Bool-cases (ends_with (codes ".fits") (parser.lower name))) [
    | inl q ↦ inl (ends_with-Ends (codes ".fits") (parser.lower name) q)
    | inr q ↦ inr (ends_with-Ends (codes ".fit") (parser.lower name) (ground (arith, q, h)))
  ];
  unstacked = λ rest e.
      let e' : starts_with (codes "stacked") (parser.lower name) ≡ true =
        subst (λ (t : Text). starts_with (codes "stacked") t ≡ true) (sym e)
          (starts_with-append (codes "stacked") rest) in
      absurd (ground (arith, e', h));
}

-- The entry is later than the baseline by more than a microsecond, or is another file.
abbrev pub IsNew : FtpPhotoEntry → Option FtpPhotoEntry → Type 0
IsNew entry none = Unit {0}
IsNew entry (some baseline) =
    (baseline.timestamp + 1 < entry.timestamp) ⊎ (entry.path ≢ baseline.path)

-- The time in the path of an entry, and otherwise its timestamp, is at most ten seconds before the
-- bound.
abbrev pub IsCurrent : Option ℕ → FtpPhotoEntry → Option ℕ → Type 0
IsCurrent embedded entry none = Unit {0}
IsCurrent none entry (some not_before) = not_before ≤ entry.timestamp + 10000000
IsCurrent (some time) entry (some not_before) = not_before ≤ time + 10000000

same_path-no : (a b : FtpPhotoEntry) → a.path ≡ b.path → text_eq a.path b.path ≡ false → ⊥
same_path-no a b e q =
    let k : text_eq a.path b.path ≡ true =
      subst (λ (t : Text). text_eq a.path t ≡ true) e (text_eq_refl a.path) in
    absurd (cc)

is_new_entry_iff :
    (entry : FtpPhotoEntry) (o : Option FtpPhotoEntry)
    → (is_new_entry entry o ≡ true) ↔ IsNew entry o
unfolding is_new_entry
is_new_entry_iff entry none = (λ h. tt, λ h. refl)
is_new_entry_iff entry (some b) = elim (Bool-cases (text_eq entry.path b.path)) [
  | inl q ↦ (
    λ h. inl (ground (arith, q, h)),
    λ k. elim k [
      | inl later ↦ ground (arith, q, later)
      | inr other ↦ absurd (other (text_eq→ entry.path b.path q))
    ],
  )
  | inr q ↦ (λ h. inr (λ e. absurd (same_path-no entry b e q)), λ k. ground (arith, q))
]

is_current_capture_iff :
    (embedded : Text → Option ℕ) (entry : FtpPhotoEntry) (o : Option ℕ)
    → (is_current_capture embedded entry o ≡ true) ↔ IsCurrent (embedded entry.path) entry o
unfolding is_current_capture
is_current_capture_iff embedded entry none = (λ h. tt, λ h. refl)
is_current_capture_iff embedded entry (some not_before) =
    elim (Option-cases (embedded entry.path)) [
      | inl d ↦ rw d (λ h. ground (arith, h), λ k. ground (arith, k))
      | inr (time, d) ↦ rw d (λ h. ground (arith, h), λ k. ground (arith, k))
    ]

-- The entry is new against the baseline and not older than the exposure allows.
abbrev pub IsFresh : Wanted → FtpPhotoEntry → Type 0
IsFresh wanted entry =
    IsNew entry wanted.baseline × IsCurrent (wanted.embedded entry.path) entry wanted.not_before

pub is_wanted-IsFresh :
    (wanted : Wanted) (entry : FtpPhotoEntry) → is_wanted wanted entry ≡ true → IsFresh wanted entry
unfolding is_wanted
is_wanted-IsFresh wanted entry h = (
  (is_new_entry_iff entry wanted.baseline).0 (ground (arith, h)),
  (is_current_capture_iff wanted.embedded entry wanted.not_before).0 (ground (arith, h)),
)

pub unwanted-IsFresh :
    (wanted : Wanted) (entry : FtpPhotoEntry)
    → is_wanted wanted entry ≡ false
    → ¬ IsFresh wanted entry
unfolding is_wanted
unwanted-IsFresh wanted entry h (new, current) =
    let n : is_new_entry entry wanted.baseline ≡ true =
      (is_new_entry_iff entry wanted.baseline).1 new in
    let c : is_current_capture wanted.embedded entry wanted.not_before ≡ true =
      (is_current_capture_iff wanted.embedded entry wanted.not_before).1 current in
    absurd (ground (arith, n, c, h))
