-- ===== src/Ftp/Listing.antt =====
-- `_collect_astro_entries`, `_collect_photo_entries` and `_get_latest_photo_entry_sync` of
-- src/dwarf_alpaca/dwarf/ftp_client.py. Texts are lists of code points and times are in microseconds. The
-- parser of a reply's time, the sort key that a regular expression finds in the name of a directory, and
-- `lower` are parameters.
use dwarf_alp.Prelude.{
  ℕ, ◌-◌, max, Bool, true, false, not, ◌&&◌, ◌||◌, Option, none, some, List, [], ◌∷◌, ◌++◌, map,
  length, take, drop, leb, ◌==◌, if◌then◌else◌,
}
use dwarf_alp.Exposure.Json.{Text, codes, text_eq}
use dwarf_alp.Camera.Capture.{CaptureMode, astro, photo}

pub record FtpPhotoEntry : Type 0 where
  pub directory : Text
  pub name : Text
  pub timestamp : ℕ
  pub path : Text

-- What the server shows while it is searched: which directories it enters, the names in one (`none`
-- where it refuses to list it), its reply to the question for a file's time, and the clock when a
-- file's time is asked for.
pub record Server : Type 0 where
  pub enters : Text → Bool
  pub names : Text → Option (List Text)
  pub replies : Text → Text → Option Text
  pub now : Text → Text → ℕ

pub record Parser : Type 0 where
  pub lower : Text → Text
  pub mdtm : Text → Option ℕ
  pub directory_key : Text → ℕ

abbrev pub starts_with : Text → Text → Bool
starts_with [] t = true
starts_with (c ∷ rest) [] = false
starts_with (c ∷ rest) (d ∷ t) = c == d && starts_with rest t

abbrev pub ends_with : Text → Text → Bool
ends_with suffix t =
    leb (length suffix) (length t) && text_eq (drop (length t - length suffix) t) suffix

-- `rstrip('/')`
abbrev pub strip_slashes : Text → Text
strip_slashes [] = []
strip_slashes (c ∷ t) =
    let rest = strip_slashes t in if text_eq rest [] && c == 47 then [] else c ∷ rest

abbrev pub join_path : Text → Text → Text
join_path directory name = strip_slashes directory ++ 47 ∷ name

abbrev pub or_empty : Option (List Text) → List Text
or_empty none = []
or_empty (some names) = names

abbrev pub filter_names : (Text → Bool) → List Text → List Text
filter_names test [] = []
filter_names test (name ∷ names) =
    let rest = filter_names test names in if test name then name ∷ rest else rest

unfoldable pub walk : (Text → List FtpPhotoEntry) → List Text → List FtpPhotoEntry
walk f [] = []
walk f (directory ∷ rest) = f directory ++ walk f rest

abbrev pub astro_roots : List Text
astro_roots = codes "/Astronomy" ∷ codes "/DWARF_mini/Astronomy" ∷ codes "/DWARF_II/Astronomy" ∷ []

module _ (parser : Parser) where
  -- The names of frames that `_collect_astro_entries` accepts.
  unfoldable pub is_raw_frame : Text → Bool
  is_raw_frame name =
      let lowered = parser.lower name in
      (ends_with (codes ".fits") lowered || ends_with (codes ".fit") lowered)
      && not (starts_with (codes "stacked") lowered)

  -- `capture_dirs.sort` by falling keys, which keeps the order of equal ones.
  unfoldable pub insert_directory : Text → List Text → List Text
  insert_directory d [] = d ∷ []
  insert_directory d (e ∷ rest) =
      let below = insert_directory d rest in
      if leb (parser.directory_key e) (parser.directory_key d) then d ∷ e ∷ rest else e ∷ below

  unfoldable pub sort_directories : List Text → List Text
  unfolding insert_directory
  sort_directories [] = []
  sort_directories (d ∷ rest) = insert_directory d (sort_directories rest)

  -- `_matches_extension`
  unfoldable pub matches_extension : Text → Bool
  matches_extension name =
      let lowered = parser.lower name in
      ends_with (codes ".jpg") lowered
      || ends_with (codes ".jpeg") lowered
      || ends_with (codes ".png") lowered
      || ends_with (codes ".fits") lowered
      || ends_with (codes ".fit") lowered

  unfoldable pub is_photo_of : Text → Text → Bool
  unfolding matches_extension
  is_photo_of prefix name = starts_with prefix name && matches_extension name

module _ (parser : Parser) (server : Server) where
  -- `_fetch_timestamp` and `_parse_mdtm`
  unfoldable pub fetch_timestamp : Text → Text → ℕ
  fetch_timestamp directory name = elim (server.replies directory name) [
    | none ↦ server.now directory name
    | some reply ↦ elim (parser.mdtm reply) [ none ↦ server.now directory name | some time ↦ time ]
  ]

  unfoldable pub entry_of : Text → Text → FtpPhotoEntry
  unfolding fetch_timestamp
  entry_of directory name = record {
    directory = directory;
    name = name;
    timestamp = fetch_timestamp directory name;
    path = join_path directory name;
  }

  -- The entries of one directory whose names pass a test.
  unfoldable pub entries_in : (Text → Bool) → Text → List FtpPhotoEntry
  unfolding entry_of
  entries_in test directory =
      if server.enters directory
      then map (entry_of directory) (filter_names test (or_empty (server.names directory)))
      else []

  -- The directories below a root that are walked, `limit` at most.
  unfoldable pub scanned_directories : ℕ → Text → List Text
  unfolding sort_directories
  scanned_directories limit root = map (join_path root) (
      take (max 1 limit) (
        sort_directories parser
          (filter_names (starts_with (codes "DWARF_RAW")) (or_empty (server.names root)))))

  unfoldable pub collect_root : ℕ → Text → List FtpPhotoEntry
  unfolding walk scanned_directories entries_in is_raw_frame
  collect_root limit root =
      if server.enters root
      then walk (entries_in (is_raw_frame parser)) (scanned_directories limit root)
      else []

  unfoldable pub collect_astro_entries : ℕ → List FtpPhotoEntry
  unfolding walk collect_root
  collect_astro_entries limit = walk (collect_root limit) astro_roots

  -- `camera` is in capital letters.
  unfoldable pub collect_photo_entries : Text → List FtpPhotoEntry
  unfolding entries_in is_photo_of
  collect_photo_entries camera =
      entries_in (is_photo_of parser (codes "DWARF_mini_" ++ camera))
        (codes "/DWARF_mini/Normal_Photos")
      ++ entries_in (is_photo_of parser (codes "DWARF3_" ++ camera)) (codes "/Normal_Photos")
      ++ entries_in (is_photo_of parser (codes "DWARF_" ++ camera))
          (codes "/DWARF_II/Normal_Photos")

  unfoldable pub collect_entries : CaptureMode → ℕ → Text → List FtpPhotoEntry
  unfolding collect_astro_entries collect_photo_entries
  collect_entries astro limit camera = collect_astro_entries limit
  collect_entries photo limit camera = collect_photo_entries camera
