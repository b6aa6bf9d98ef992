-- ===== src/Ftp/Tests.antt =====
-- A search for a new frame, and an instance of its theorem. Contents are numbers.
use dwarf_alp.Prelude.{ℕ, ◌≡◌, refl, Option, none, some, List, [], ◌∷◌, ◌++◌, if◌then◌else◌, ◌||◌}
use dwarf_alp.Exposure.Json.{Text, codes, text_eq}
use dwarf_alp.Camera.Capture.{astro}
use dwarf_alp.Ftp.Listing.{FtpPhotoEntry, Server, Parser}
use dwarf_alp.Ftp.Wait.{Poll, Wanted, wait_for_new_photo}
use dwarf_alp.Ftp.Found.{Finds, wait_for_new_photo-Finds}

abbrev capture : Text
capture = codes "/Astronomy/DWARF_RAW_M31"

-- One capture with two frames and a stack.
abbrev names_in : Text → Option (List Text)
names_in directory =
    if text_eq directory (codes "/Astronomy")
    then some (codes "DWARF_RAW_M31" ∷ codes "DARK" ∷ [])
    else if text_eq directory capture
    then some (codes "m31_1.fits" ∷ codes "stacked_m31.fits" ∷ codes "m31_0.fits" ∷ [])
    else none

abbrev server : Server
server = record {
  enters = λ d. text_eq d (codes "/Astronomy") || text_eq d capture;
  names = names_in;
  replies = λ d name. some name;
  now = λ d name. 0;
}

abbrev parser : Parser
parser = record {
  lower = λ t. t;
  mdtm = λ t. some (if text_eq t (codes "m31_1.fits") then 90000000 else 50000000);
  directory_key = λ t. 0;
}

abbrev wanted : Wanted
wanted = record {
  parser = parser;
  embedded = λ t. none;
  kind = astro;
  camera = codes "TELE";
  limit = 8;
  baseline = none;
  not_before = some 95000000;
}

-- The first poll fails.
abbrev polls : List (Poll ℕ)
polls =
    record { server = none; download = λ path. none }
    ∷ record { server = some server; download = λ path. some 7 }
    ∷ []

abbrev frame : FtpPhotoEntry
frame = record {
  directory = capture;
  name = codes "m31_1.fits";
  timestamp = 90000000;
  path = capture ++ codes "/m31_1.fits";
}

finds_frame : wait_for_new_photo wanted polls ≡ some (frame, 7)
unfolding wait_for_new_photo
finds_frame = refl

wait_for_new_photo-Finds_example : Finds wanted polls (wait_for_new_photo wanted polls)
wait_for_new_photo-Finds_example = wait_for_new_photo-Finds wanted polls
