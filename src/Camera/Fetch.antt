-- ===== src/Camera/Fetch.antt =====
-- `_fetch_capture`, `camera_abort_exposure`, `camera_readout` and what they call in
-- src/dwarf_alpaca/dwarf/session.py. What other tasks do during an `await` is an argument; the FTP task
-- shows its effect where it is awaited. `_store_frame` refuses no frame, since the decoders give arrays
-- of numbers. Times are in milliseconds.
use dwarf_alp.Prelude.{
  ℕ, ◌+◌, ◌*◌, Bool, true, false, not, ◌&&◌, ◌||◌, Option, none, some, List, [], ◌∷◌, ltb, leb,
  if◌then◌else◌,
}
use dwarf_alp.Sharing.Session.{no_task, done}
use dwarf_alp.Camera.Capture.{
  idle, ready, failed, processing, transferring, aborting, aborted, LastError, ftp_timeout,
  ftp_decode_failed, album_failed, CameraState, Setup, configuration_error, Run, returned, raised,
  ◌>>=◌, Await, wait, is_photo, is_running,
}

-- What one `asyncio.wait` of the loop reports: the event of the complete frames, and how the FTP task
-- ended, if they are done; or nothing until the deadline.
pub data Round : Type 0 where
  nothing_done : Round
  some_done : Bool → Option Bool → Round

pub data Trigger : Type 0 where
  ftp stacking_progress capture_timeout : Trigger

abbrev pub has_succeeded : Option Bool → Bool
has_succeeded none = false
has_succeeded (some success) = success

-- The `while` loop of `_fetch_capture` for a capture of `frames` frames. Where no round is left the
-- deadline has passed.
unfoldable pub wait_for_trigger : ℕ → List Round → Trigger
wait_for_trigger frames [] = capture_timeout
wait_for_trigger frames (nothing_done ∷ rounds) = capture_timeout
wait_for_trigger frames (some_done progress ended ∷ rounds) =
    if progress
    then stacking_progress
    else if has_succeeded ended && leb frames 1
    then ftp
    else wait_for_trigger frames rounds

abbrev pub is_timeout : Trigger → Bool
is_timeout capture_timeout = true
is_timeout ftp = false
is_timeout stacking_progress = false

-- Whether `_fetch_capture` stops the capture on the telescope.
abbrev pub stops_capture : ℕ → ℕ → Trigger → Bool
stops_capture frames current trigger = leb frames 1 || leb frames current || is_timeout trigger

-- What FTP gives: no new photo, one that cannot be decoded, or a frame with its time.
pub data Photo (I : Type 0) : Type 0 where
  no_photo undecodable : Photo I
  photo_at : I → ℕ → Photo I

-- An entry of the album with its `modificationTime`, the time that its path names, and its file.
pub record AlbumEntry : Type 0 where
  pub modification_time : Option ℕ
  pub dated : Option ℕ
  pub file : Option (List ℕ)

-- `_album_entry_is_recent`; a time in seconds is no larger than 10 ^ 10.
unfoldable pub album_entry_is_recent : AlbumEntry → Option ℕ → Bool
album_entry_is_recent entry none = true
album_entry_is_recent entry (some not_before) =
    let by_path : Bool = elim entry.dated [
      | none ↦ false
      | some time ↦ leb not_before (time + 5000)
    ] in
    elim entry.modification_time [
      | none ↦ by_path
      | some raw ↦
          let time = if ltb 10000000000 raw then raw else raw * 1000 in
          if ltb 1000000000000 time then leb not_before (time + 5000) else by_path
    ]

module _ (same_file : List ℕ → List ℕ → Bool) where
  -- Whether the album's latest entry is the photo looked for: newer than the baseline, or another file
  -- than the last one, and recent.
  unfoldable pub is_new_entry : Option ℕ → Option (List ℕ) → Option ℕ → AlbumEntry → Bool
  unfolding album_entry_is_recent
  is_new_entry baseline last_file not_before entry =
      let newer : Bool = elim entry.modification_time [
        | none ↦ false
        | some time ↦ elim baseline [ none ↦ true | some before ↦ ltb before time ]
      ] in
      let other : Bool = elim entry.file [
        | none ↦ false
        | some file ↦ elim last_file [ none ↦ true | some last ↦ not (same_file file last) ]
      ] in
      (newer || other) && album_entry_is_recent entry not_before

  -- The loop of `_attempt_album_capture` over what the album shows until the deadline.
  unfoldable pub poll_album :
      Option ℕ → Option (List ℕ) → Option ℕ → List (Option AlbumEntry) → Option AlbumEntry
  unfolding is_new_entry
  poll_album baseline last_file not_before [] = none
  poll_album baseline last_file not_before (none ∷ polls) =
      poll_album baseline last_file not_before polls
  poll_album baseline last_file not_before (some entry ∷ polls) =
      if is_new_entry baseline last_file not_before entry
      then some entry
      else poll_album baseline last_file not_before polls

-- What happens during `_fetch_capture`. `download` is the frame of an album entry with its time, `none`
-- where the entry has no file or the file cannot be fetched or decoded.
pub record Transfer (F I : Type 0) : Type 0 where
  pub rounds : List Round
  pub waits : CameraState F I → CameraState F I
  pub stops : CameraState F I → CameraState F I
  pub photo : Photo I
  pub baseline : Option ℕ
  pub last_file : Option (List ℕ)
  pub same_file : List ℕ → List ℕ → Bool
  pub polls : List (Option AlbumEntry)
  pub download : AlbumEntry → Option (I × ℕ)
  pub goes_live : CameraState F I → CameraState F I
  pub now : ℕ

abbrev pub is_some {ℓ} : {A : Type ℓ} → Option A → Bool
is_some none = false
is_some (some a) = true

module _ {F I : Type 0} where
  unfoldable pub store_frame : I → ℕ → CameraState F I → CameraState F I
  store_frame frame time s = record s {
    image = some frame;
    image_timestamp = some time;
    last_end_time = some time;
    start_time = none;
    last_error = none;
  }

  -- How an attempt that fails leaves the state.
  unfoldable pub note_failure : LastError → ℕ → CameraState F I → CameraState F I
  note_failure why now s = record s {
    start_time = none;
    last_error = some why;
    last_end_time = some now;
  }

  -- `_attempt_ftp_capture` behind its wait.
  unfoldable pub attempt_ftp_capture : Transfer F I → CameraState F I → Bool × CameraState F I
  unfolding store_frame note_failure
  attempt_ftp_capture world s = elim world.photo [
    | no_photo ↦ (false, note_failure ftp_timeout world.now s)
    | undecodable ↦ (false, note_failure ftp_decode_failed world.now s)
    | photo_at frame time ↦ (true, store_frame frame time s)
  ]

  unfoldable pub attempt_album_capture : Transfer F I → CameraState F I → CameraState F I
  unfolding poll_album store_frame note_failure
  attempt_album_capture world s =
      elim (poll_album world.same_file world.baseline world.last_file s.last_start_time
        world.polls) [
          | none ↦ note_failure album_failed world.now s
          | some entry ↦ elim (world.download entry) [
            | none ↦ note_failure album_failed world.now s
            | some (frame, time) ↦ store_frame frame time s
          ]
        ]

  -- Behind the transfer: whether a frame is there.
  unfoldable pub finish_fetch : Transfer F I → Bool → Bool → CameraState F I → CameraState F I
  finish_fetch world astro captured s =
      let s1 = if astro && captured then world.goes_live s else s in
      record s1 { capture_phase = if captured then ready else failed; capture_task = done }

  -- The transfer from a telescope: whether a frame is there, and the state.
  unfoldable pub transfer : Transfer F I → Bool → CameraState F I → Bool × CameraState F I
  unfolding wait_for_trigger attempt_ftp_capture attempt_album_capture
  transfer world astro s =
      let waited = world.waits s in
      let trigger = wait_for_trigger waited.requested_frame_count world.rounds in
      let s1 =
        if astro && stops_capture waited.requested_frame_count waited.progress_current_count trigger
        then world.stops waited
        else waited in
      let (success, s2) = attempt_ftp_capture world s1 in
      let s3 = if not astro || not (is_some s2.image) then attempt_album_capture world s2 else s2 in
      if success then (true, s2) else (is_some s3.image, s3)

  unfoldable pub fetch_capture : Setup → Transfer F I → CameraState F I → CameraState F I
  unfolding transfer finish_fetch
  fetch_capture setup world s =
      let astro = not (is_photo s.capture_mode) in
      let (captured, s1) = transfer world astro (record s { capture_phase = transferring }) in
      if setup.simulation
      then finish_fetch world astro (is_some s.image) (record s { capture_phase = processing })
      else finish_fetch world astro captured s1

  -- Behind the cancelled task: the strict `_stop_astro_capture` and the resets.
  unfoldable pub finish_abort :
      Setup → Await (CameraState F I) → ℕ → CameraState F I → Run (CameraState F I)
  finish_abort setup stop now s =
      let reset : CameraState F I → CameraState F I = λ t. record t {
        capture_task = no_task;
        start_time = none;
        image = none;
        last_end_time = some now;
        image_timestamp = none;
        last_error = some aborted;
        capture_phase = idle;
      } in
      if setup.simulation then returned (reset s) else elim stop.failure [
        | none ↦ returned (reset (stop.meanwhile s))
        | some e ↦ raised configuration_error (stop.meanwhile s)
      ]

  -- `cancelled` is the await of the cancelled capture task, `stop` the exchange that stops the capture.
  unfoldable pub camera_abort_exposure :
      Setup
      → Await (CameraState F I)
      → Await (CameraState F I)
      → ℕ
      → CameraState F I
      → Run (CameraState F I)
  unfolding finish_abort
  camera_abort_exposure setup cancelled stop now s =
      let s1 : CameraState F I = record s { capture_id = none; capture_phase = aborting } in
      if not setup.simulation && is_photo s.capture_mode
      then raised configuration_error s
      else if is_running s.capture_task
      then wait cancelled (record s1 { capture_task = done }) >>= finish_abort setup stop now
      else finish_abort setup stop now s1

  unfoldable pub camera_readout : CameraState F I → Option I
  camera_readout s = elim s.capture_phase [ ready ↦ s.image | _ ↦ none ]
