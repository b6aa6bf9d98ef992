-- ===== src/Capture/Progress.antt =====
-- When `_handle_astro_capture_progress_notification` of src/dwarf_alpaca/dwarf/session.py takes the
-- frames of a capture for complete.
use dwarf_alp.Prelude.{
  ℕ, ◌≡◌, refl, ◌∙◌, ◌&&◌, Option, none, some, List, [], ◌∷◌, arith, max, leb, if◌then◌else◌,
}
use dwarf_alp.Prelude.Int.{pos_part}
use dwarf_alp.Capture.Notify.{
  CaptureProgress, CaptureState, handle_astro_capture_progress_notification, reset_progress,
  is_positive,
}

-- The largest count of frames that any message reports, and the last total that is positive.
abbrev pub most_frames : List CaptureProgress → ℕ
most_frames [] = 0
most_frames (p ∷ ps) = max (pos_part p.current_count) (most_frames ps)

abbrev pub last_total : Option ℕ → List CaptureProgress → Option ℕ
last_total total [] = total
last_total total (p ∷ ps) =
    last_total (if is_positive p.total_count then some (pos_part p.total_count) else total) ps

module _ {F : Type 0} where
  abbrev pub handle_all : List CaptureProgress → CaptureState F → CaptureState F
  handle_all [] s = s
  handle_all (p ∷ ps) s = handle_all ps (handle_astro_capture_progress_notification (some p) s)

  -- The event is set exactly when there is a capture and its frames are all there.
  abbrev IsMarked : CaptureState F → Type 0
  IsMarked s =
      s.capture_frame_complete_event
      ≡ (s.has_capture_id && leb (max 1 s.requested_frame_count) s.progress_current_count)

  marks :
      (p : CaptureProgress) (s : CaptureState F)
      → IsMarked s
      → IsMarked (handle_astro_capture_progress_notification (some p) s)
  unfolding handle_astro_capture_progress_notification
  marks p s h = ground (arith, h)

  counts :
      (p : CaptureProgress) (s : CaptureState F)
      → (handle_astro_capture_progress_notification (some p) s).progress_current_count
        ≡ max s.progress_current_count (pos_part p.current_count)
  unfolding handle_astro_capture_progress_notification
  counts p s = ground arith

  handle_all-counts :
      (ps : List CaptureProgress) (s : CaptureState F)
      → (handle_all ps s).progress_current_count ≡ max s.progress_current_count (most_frames ps)
  handle_all-counts [] s = omega arith
  handle_all-counts (p ∷ ps) s =
      let t = handle_astro_capture_progress_notification (some p) s in
      omega (arith, handle_all-counts ps t, counts p s)

  handle_all-IsMarked :
      (ps : List CaptureProgress) (s : CaptureState F) → IsMarked s → IsMarked (handle_all ps s)
  handle_all-IsMarked [] s h = h
  handle_all-IsMarked (p ∷ ps) s h =
      handle_all-IsMarked ps (handle_astro_capture_progress_notification (some p) s) (marks p s h)

  -- The capture and the number of its frames stay as they are.
  handle_all-keeps :
      (ps : List CaptureProgress) (s : CaptureState F)
      → ((handle_all ps s).has_capture_id ≡ s.has_capture_id)
        × ((handle_all ps s).requested_frame_count ≡ s.requested_frame_count)
  unfolding handle_astro_capture_progress_notification
  handle_all-keeps [] s = (refl, refl)
  handle_all-keeps (p ∷ ps) s =
      handle_all-keeps ps (handle_astro_capture_progress_notification (some p) s)

  handle_all-total :
      (ps : List CaptureProgress) (s : CaptureState F)
      → (handle_all ps s).progress_total_count ≡ last_total s.progress_total_count ps
  unfolding handle_astro_capture_progress_notification
  handle_all-total [] s = refl
  handle_all-total (p ∷ ps) s =
      handle_all-total ps (handle_astro_capture_progress_notification (some p) s)

  -- After a reset and any progress messages, in whatever order they report, the count of frames is the
  -- largest that any of them reports, the total is the last positive one, and the frames are taken for
  -- complete exactly where there is a capture and that largest count reaches the requested number, at
  -- least one.
  pub progress_completes :
      (ps : List CaptureProgress) (s : CaptureState F)
      → ((handle_all ps (reset_progress s)).progress_current_count ≡ most_frames ps)
        × ((handle_all ps (reset_progress s)).progress_total_count ≡ last_total none ps)
        × ((handle_all ps (reset_progress s)).capture_frame_complete_event
            ≡ (s.has_capture_id && leb (max 1 s.requested_frame_count) (most_frames ps)))
  unfolding reset_progress
  progress_completes ps s =
      let count = handle_all-counts ps (reset_progress s) in
      let (id, frames) = handle_all-keeps ps (reset_progress s) in
      let start : IsMarked (reset_progress s) = ground arith in
      let marked = handle_all-IsMarked ps (reset_progress s) start in
      let current : (handle_all ps (reset_progress s)).progress_current_count ≡ most_frames ps =
        omega (arith, count) in
      (
        current,
        handle_all-total ps (reset_progress s),
        marked ∙ λ i. id i && leb (max 1 (frames i)) (current i),
      )
