-- ===== src/Sharing/Steps.antt =====
-- The filter wheel of src/dwarf_alpaca/devices/filterwheel.py in every state that it reaches while the session
-- is not shut down.
use dwarf_alp.Prelude.{◌≡◌, Bool, true, false, List, arith, if◌then◌else◌, ap}
use dwarf_alp.Prelude.Int.{ℤ}
use dwarf_alp.Sharing.Session.{DeviceName, Refs, World, acquire, release}
use dwarf_alp.Sharing.Holders.{same_device}
use dwarf_alp.Sharing.Counts.{count-acquire, count-release, other_release_keeps}
use dwarf_alp.Sharing.Wheel.{
  FilterWheelState, System, Wheel, preload_filters, put_connected, get_names, get_focus_offsets,
  get_position, put_position,
}
use dwarf_alp.Sharing.Latch.{
  wheel_count, IsLatched, put_connected-IsLatched, put_position-IsLatched, get_position-IsLatched,
  get_names-IsLatched, get_focus_offsets-IsLatched, preload_filters-IsLatched,
}
use dwarf_alp.Sharing.Session.{no_refs}

module _ {C M L : Type 0} where
  -- The requests to the filter wheel and what the other devices do, each carried through before the
  -- next one. A shutdown of the session is not among them.
  pub data Step (s : System C M L) : System C M L → Type 0 where
    connected_put : (world : Wheel C M L) (value : Bool) → Step s (put_connected world value s).1
    position_put : (world : Wheel C M L) (p : ℤ) → Step s (put_position world p s).1
    position_got : (world : Wheel C M L) → Step s (get_position world s).1
    names_got :
        (same_names : List L → List L → Bool) (world : Wheel C M L)
        → Step s (get_names same_names world s).1
    offsets_got : (world : Wheel C M L) → Step s (get_focus_offsets world s).1
    preloaded : (world : Wheel C M L) → Step s (preload_filters world s)
    other_acquired :
        (world : World C M) (d : DeviceName)
        → same_device d DeviceName.filterwheel ≡ false
        → Step s (record s { session = (acquire world d s.session).1 })
    other_released :
        (world : World C M) (d : DeviceName)
        → same_device d DeviceName.filterwheel ≡ false
        → Step s (record s { session = release world d s.session })
    other_changed :
        (t : System C M L) → t.session.refs ≡ s.session.refs → t.wheel ≡ s.wheel → Step s t

  Step-IsLatched : (s t : System C M L) → Step s t → IsLatched s → IsLatched t
  unfolding IsLatched
  Step-IsLatched s t (connected_put world value) h = put_connected-IsLatched world value s h
  Step-IsLatched s t (position_put world p) h = put_position-IsLatched world p s h
  Step-IsLatched s t (position_got world) h = get_position-IsLatched world s h
  Step-IsLatched s t (names_got same_names world) h = get_names-IsLatched same_names world s h
  Step-IsLatched s t (offsets_got world) h = get_focus_offsets-IsLatched world s h
  Step-IsLatched s t (preloaded world) h = preload_filters-IsLatched world s h
  Step-IsLatched s t (other_acquired world d other) h =
      ground (arith, h, other, count-acquire world d DeviceName.filterwheel s.session)
  Step-IsLatched s t (other_released world d other) h =
      ground (arith, h, other, count-release world d DeviceName.filterwheel s.session)
  Step-IsLatched s t (other_changed u r w) h =
      ground (
        arith,
        h,
        ap (λ (v : Refs). v.filterwheel) r,
        ap (λ (v : FilterWheelState L). v.connected) w,
      )

  pub data Reach (s : System C M L) : System C M L → Type 0 where
    here : Reach s s
    later : {t u : System C M L} → Reach s t → Step t u → Reach s u

  Reach-IsLatched : {s t : System C M L} → IsLatched s → Reach s t → IsLatched t
  Reach-IsLatched h here = h
  Reach-IsLatched h (later {t} {u} r m) = Step-IsLatched t u m (Reach-IsLatched h r)

  -- A session and a filter wheel that nobody uses.
  abbrev pub IsFresh : System C M L → Type 0
  IsFresh s = (s.session.refs ≡ no_refs) × (s.wheel.connected ≡ false)

  -- As long as the session is not shut down, so in every state that requests to the wheel and acquires
  -- and releases by the other devices reach from their start: the wheel has one reference to the session
  -- while it is connected and none otherwise, whatever requests failed.
  pub reachable-IsLatched :
      (s t : System C M L)
      → IsFresh s
      → Reach s t
      → wheel_count t ≡ (if t.wheel.connected then 1 else 0)
  unfolding IsLatched
  reachable-IsLatched s t (unused, off) r =
      let start : IsLatched s = ground (arith, off, ap (λ (v : Refs). v.filterwheel) unused) in
      Reach-IsLatched {s = s} {t = t} start r

  -- As long as the session is not shut down, so in every state that requests to the wheel and acquires
  -- and releases by the other devices reach from their start: where the filter wheel is connected, a
  -- release by another device leaves the websocket client as it is.
  pub connected_wheel_keeps_session :
      (s t : System C M L) (world : World C M) (d : DeviceName)
      → IsFresh s
      → Reach s t
      → same_device d DeviceName.filterwheel ≡ false
      → t.wheel.connected ≡ true
      → (release world d t.session).ws_client ≡ t.session.ws_client
  connected_wheel_keeps_session s t world d fresh r other on =
      other_release_keeps world d t.session other
        (ground (arith, reachable-IsLatched s t fresh r, on))
