-- ===== src/Ftp/Wait.antt =====
-- `wait_for_new_photo` of src/dwarf_alpaca/dwarf/ftp_client.py over what its polls meet until the
-- deadline. The time that a regular expression finds in a path is a parameter. `C` is the type of
-- contents.
use dwarf_alp.Prelude.{
  ℕ, ◌+◌, Bool, true, false, not, ◌&&◌, ◌||◌, Option, none, some, List, [], ◌∷◌, ltb, leb, ◌==◌,
  if◌then◌else◌,
}
use dwarf_alp.Exposure.Json.{Text, text_eq}
use dwarf_alp.Camera.Capture.{CaptureMode}
use dwarf_alp.Ftp.Listing.{FtpPhotoEntry, Server, Parser, collect_entries}

-- The order of texts by their code points.
abbrev pub text_leb : Text → Text → Bool
text_leb [] u = true
text_leb (c ∷ t) [] = false
text_leb (c ∷ t) (d ∷ u) = ltb c d || (c == d && text_leb t u)

-- The order of the keys `(item.timestamp, item.path)`.
abbrev pub is_no_later : FtpPhotoEntry → FtpPhotoEntry → Bool
is_no_later a b =
    ltb a.timestamp b.timestamp || (a.timestamp == b.timestamp && text_leb a.path b.path)

-- The last entry in that order, and the last one of those with an equal key.
unfoldable pub latest : List FtpPhotoEntry → Option FtpPhotoEntry
latest [] = none
latest (e ∷ rest) = elim (latest rest) [
  | none ↦ some e
  | some b ↦ if is_no_later e b then some b else some e
]

unfoldable pub is_new_entry : FtpPhotoEntry → Option FtpPhotoEntry → Bool
is_new_entry entry none = true
is_new_entry entry (some baseline) =
    ltb (baseline.timestamp + 1) entry.timestamp || not (text_eq entry.path baseline.path)

-- `CAPTURE_CLOCK_TOLERANCE_SECONDS`
abbrev pub tolerance : ℕ
tolerance = 10000000

unfoldable pub is_current_capture : (Text → Option ℕ) → FtpPhotoEntry → Option ℕ → Bool
is_current_capture embedded entry none = true
is_current_capture embedded entry (some not_before) =
    let observed : ℕ = elim (embedded entry.path) [ none ↦ entry.timestamp | some time ↦ time ] in
    leb not_before (observed + tolerance)

-- One round of the loop: the server, or `none` where the search fails, and the download of a path.
pub record Poll (C : Type 0) : Type 0 where
  pub server : Option Server
  pub download : Text → Option C

-- What a call looks for.
pub record Wanted : Type 0 where
  pub parser : Parser
  pub embedded : Text → Option ℕ
  pub kind : CaptureMode
  pub camera : Text
  pub limit : ℕ
  pub baseline : Option FtpPhotoEntry
  pub not_before : Option ℕ

module _ (wanted : Wanted) where
  abbrev pub entries_of : Server → List FtpPhotoEntry
  entries_of server = collect_entries wanted.parser server wanted.kind wanted.limit wanted.camera

  -- `get_latest_photo_entry`, or `none` where it raises.
  unfoldable pub latest_entry : Option Server → Option FtpPhotoEntry
  unfolding latest collect_entries
  latest_entry none = none
  latest_entry (some server) = latest (entries_of server)

  unfoldable pub is_wanted : FtpPhotoEntry → Bool
  unfolding is_new_entry is_current_capture
  is_wanted entry =
      is_new_entry entry wanted.baseline
      && is_current_capture wanted.embedded entry wanted.not_before

  -- What one round finds.
  unfoldable pub poll_photo : {C : Type 0} → Poll C → Option (FtpPhotoEntry × C)
  unfolding latest_entry is_wanted
  poll_photo poll = elim (latest_entry poll.server) [
    | none ↦ none
    | some entry ↦
        if is_wanted entry
        then elim (poll.download entry.path) [ none ↦ none | some content ↦ some (entry, content) ]
        else none
  ]

  unfoldable pub wait_for_new_photo : {C : Type 0} → List (Poll C) → Option (FtpPhotoEntry × C)
  unfolding poll_photo
  wait_for_new_photo [] = none
  wait_for_new_photo (poll ∷ polls) = elim (poll_photo poll) [
    | none ↦ wait_for_new_photo polls
    | some found ↦ some found
  ]
