-- ===== src/Ftp/Order.antt =====
-- The order in which src/dwarf_alpaca/dwarf/ftp_client.py sorts the entries that it finds, and the last
-- entry in it.
use dwarf_alp.Prelude.{
  ◌≡◌, refl, true, false, Option, none, some, List, [], ◌∷◌, arith, if◌then◌else◌, inl, inr,
  Bool-cases, subst, sym,
}
use mathlib.Core.List.{Memᴰ}
use mathlib.Core.List.Memᴰ
use dwarf_alp.Exposure.Json.{Text}
use dwarf_alp.Ftp.Listing.{FtpPhotoEntry}
use dwarf_alp.Ftp.Wait.{text_leb, is_no_later, latest}

text_leb_refl : (t : Text) → text_leb t t ≡ true
text_leb_refl [] = refl
text_leb_refl (c ∷ t) = ground (arith, text_leb_refl t)

text_leb_total : (t u : Text) → text_leb t u ≡ false → text_leb u t ≡ true
text_leb_total [] u h = absurd (cc)
text_leb_total (c ∷ t) [] h = refl
text_leb_total (c ∷ t) (d ∷ u) h = ground (arith, h, text_leb_total t u)

text_leb_trans : (t u v : Text) → text_leb t u ≡ true → text_leb u v ≡ true → text_leb t v ≡ true
text_leb_trans [] u v h k = refl
text_leb_trans (c ∷ t) [] v h k = absurd (cc)
text_leb_trans (c ∷ t) (d ∷ u) [] h k = absurd (cc)
text_leb_trans (c ∷ t) (d ∷ u) (e ∷ v) h k = ground (arith, h, k, text_leb_trans t u v)

no_later_refl : (a : FtpPhotoEntry) → is_no_later a a ≡ true
no_later_refl a = ground (arith, text_leb_refl a.path)

no_later_total : (a b : FtpPhotoEntry) → is_no_later a b ≡ false → is_no_later b a ≡ true
no_later_total a b h = ground (arith, h, text_leb_total a.path b.path)

no_later_trans :
    (a b c : FtpPhotoEntry)
    → is_no_later a b ≡ true
    → is_no_later b c ≡ true
    → is_no_later a c ≡ true
no_later_trans a b c h k = ground (arith, h, k, text_leb_trans a.path b.path c.path)

-- The entry is one of a list, and none of the list is later.
abbrev pub IsLatest : FtpPhotoEntry → List FtpPhotoEntry → Type 0
IsLatest b entries =
    Memᴰ b entries × ((e : FtpPhotoEntry) → Memᴰ e entries → is_no_later e b ≡ true)

abbrev pub IsLatestOf : List FtpPhotoEntry → Option FtpPhotoEntry → Type 0
IsLatestOf entries none = entries ≡ []
IsLatestOf entries (some b) = IsLatest b entries

-- An entry before the others keeps the latest of those, or takes its place.
before-IsLatestOf :
    (e : FtpPhotoEntry) (rest : List FtpPhotoEntry) (b : FtpPhotoEntry)
    → IsLatest b rest
    → IsLatestOf (e ∷ rest) (if is_no_later e b then some b else some e)
before-IsLatestOf e rest b (found, last) = elim (Bool-cases (is_no_later e b)) [
  | inl q ↦ rw q (
    Memᴰ.tail found,
    λ x m. elim m [
      | Memᴰ.head p ↦ subst (λ (y : FtpPhotoEntry). is_no_later y b ≡ true) (sym p) q
      | Memᴰ.tail k ↦ last x k
    ],
  )
  | inr q ↦ rw q (
    Memᴰ.head refl,
    λ x m. elim m [
      | Memᴰ.head p ↦
          subst (λ (y : FtpPhotoEntry). is_no_later y e ≡ true) (sym p) (no_later_refl e)
      | Memᴰ.tail k ↦ no_later_trans x b e (last x k) (no_later_total e b q)
    ],
  )
]

pub latest-IsLatestOf : (entries : List FtpPhotoEntry) → IsLatestOf entries (latest entries)
unfolding latest
latest-IsLatestOf [] = refl
latest-IsLatestOf (e ∷ rest) = go (latest rest) (latest-IsLatestOf rest)
  where
    go :
        (o : Option FtpPhotoEntry)
        → IsLatestOf rest o
        → IsLatestOf
            (e ∷ rest)
            (elim o [ none ↦ some e | some b ↦ if is_no_later e b then some b else some e ])
    go none h = (
      Memᴰ.head refl,
      λ x m. elim m [
        | Memᴰ.head p ↦
            subst (λ (y : FtpPhotoEntry). is_no_later y e ≡ true) (sym p) (no_later_refl e)
        | Memᴰ.tail k ↦ absurd (Memᴰ.not-nil (subst (λ (l : List FtpPhotoEntry). Memᴰ x l) h k))
      ],
    )
    go (some b) h = before-IsLatestOf e rest b h
