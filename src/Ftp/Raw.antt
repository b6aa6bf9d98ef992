-- ===== src/Ftp/Raw.antt =====
-- Which names `_collect_astro_entries` of src/dwarf_alpaca/dwarf/ftp_client.py lets through.
use dwarf_alp.Prelude.{ℕ, ◌≡◌, true, List, [], ◌∷◌, ◌++◌, map, inl, inr, Bool-cases, sym, subst}
use mathlib.Core.List.{Memᴰ}
use mathlib.Core.List.Memᴰ
use dwarf_alp.Exposure.Json.{Text}
use dwarf_alp.Camera.Capture.{CaptureMode, astro, photo}
use dwarf_alp.Ftp.Listing.{
  FtpPhotoEntry, Server, Parser, filter_names, entry_of, entries_in, is_raw_frame, walk, or_empty,
  scanned_directories, collect_root, collect_astro_entries, collect_entries, astro_roots,
}

module _ (P : FtpPhotoEntry → Type 0) where
  abbrev Every : List FtpPhotoEntry → Type 0
  Every [] = Unit {0}
  Every (e ∷ rest) = P e × Every rest

  Every-append : (a b : List FtpPhotoEntry) → Every a → Every b → Every (a ++ b)
  Every-append [] b h k = k
  Every-append (e ∷ a) b (p, h) k = (p, Every-append a b h k)

  Every-Mem : (a : List FtpPhotoEntry) (e : FtpPhotoEntry) → Every a → Memᴰ e a → P e
  Every-Mem [] e h m = absurd (Memᴰ.not-nil m)
  Every-Mem (x ∷ a) e (p, h) m = elim m [
    | Memᴰ.head q ↦ subst P (sym q) p
    | Memᴰ.tail k ↦ Every-Mem a e h k
  ]

  Every-walk :
      (f : Text → List FtpPhotoEntry) (directories : List Text)
      → ((d : Text) → Every (f d))
      → Every (walk f directories)
  unfolding walk
  Every-walk f [] h = tt
  Every-walk f (d ∷ rest) h = Every-append (f d) (walk f rest) (h d) (Every-walk f rest h)

module _ (parser : Parser) (server : Server) where
  -- The name is that of a raw frame.
  abbrev pub IsRaw : FtpPhotoEntry → Type 0
  IsRaw e = is_raw_frame parser e.name ≡ true

  filtered-IsRaw :
      (directory : Text) (names : List Text)
      → Every IsRaw
          (map (entry_of parser server directory) (filter_names (is_raw_frame parser) names))
  unfolding entry_of
  filtered-IsRaw directory [] = tt
  filtered-IsRaw directory (name ∷ names) = elim (Bool-cases (is_raw_frame parser name)) [
    | inl q ↦ rw q (q, filtered-IsRaw directory names)
    | inr q ↦ rw q (filtered-IsRaw directory names)
  ]

  entries_in-IsRaw :
      (directory : Text) → Every IsRaw (entries_in parser server (is_raw_frame parser) directory)
  unfolding entries_in
  entries_in-IsRaw directory = elim (Bool-cases (server.enters directory)) [
    | inl q ↦ rw q (filtered-IsRaw directory (or_empty (server.names directory)))
    | inr q ↦ rw q tt
  ]

  root-IsRaw : (limit : ℕ) (root : Text) → Every IsRaw (collect_root parser server limit root)
  unfolding collect_root
  root-IsRaw limit root = elim (Bool-cases (server.enters root)) [
    | inl q ↦ rw q (
        Every-walk IsRaw (entries_in parser server (is_raw_frame parser))
          (scanned_directories parser server limit root) entries_in-IsRaw)
    | inr q ↦ rw q tt
  ]

  collected-IsRaw : (limit : ℕ) → Every IsRaw (collect_astro_entries parser server limit)
  unfolding collect_astro_entries
  collected-IsRaw limit =
      Every-walk IsRaw (collect_root parser server limit) astro_roots (root-IsRaw limit)

  -- In the astro workflow every entry that the search finds has the name of a raw frame.
  pub found-IsRaw :
      (kind : CaptureMode) (limit : ℕ) (camera : Text) (e : FtpPhotoEntry)
      → kind ≡ astro
      → Memᴰ e (collect_entries parser server kind limit camera)
      → is_raw_frame parser e.name ≡ true
  unfolding collect_entries
  found-IsRaw astro limit camera e q m =
      Every-Mem IsRaw (collect_astro_entries parser server limit) e (collected-IsRaw limit) m
  found-IsRaw photo limit camera e q m = absurd (cc)
