-- ===== src/Sharing/Latch.antt =====
-- The filter wheel of src/dwarf_alpaca/devices/filterwheel.py holds the session while it is connected:
-- each of its requests keeps that.
use dwarf_alp.Prelude.{
  ℕ, ◌≡◌, refl, Bool, true, false, not, Option, none, some, List, [], ◌∷◌, arith, if◌then◌else◌,
  Bool-cases, inl, inr, ap, ◌∙◌, length,
}
use dwarf_alp.Prelude.Int.{ℤ, pos}
use dwarf_alp.Sharing.Session.{DeviceName, acquire}
use dwarf_alp.Sharing.Release.{ensure_ws-refs}
use dwarf_alp.Sharing.Counts.{count-acquire, count-release}
use dwarf_alp.Sharing.Wheel.{
  FilterWheelState, System, Wheel, Answer, set_names, set_wheel, set_filter_position,
  preload_filters, first_position, choose_position, finish_connect, undo_connect, connect_filters,
  put_connected, get_names, get_focus_offsets, restore_position, get_position, put_position,
  response, http_error, unhandled,
}

module _ {C M L : Type 0} where
  abbrev pub wheel_count : System C M L → ℕ
  wheel_count s = s.session.refs.filterwheel

  -- One reference while the wheel is connected, none otherwise.
  unfoldable pub IsLatched : System C M L → Type 0
  IsLatched s = wheel_count s ≡ (if s.wheel.connected then 1 else 0)

  set_filter_position-keeps :
      (world : Wheel C M L) (p : ℤ) (s : System C M L)
      → (wheel_count (set_filter_position world p s).1 ≡ wheel_count s)
        × ((set_filter_position world p s).1.wheel ≡ s.wheel)
  unfolding set_filter_position
  set_filter_position-keeps world p s =
      (ground (arith, ensure_ws-refs world.on_move s.session), ground arith)

  pub choose_position-keeps :
      (world : Wheel C M L) (name : L) (n : ℕ) (s : System C M L)
      → (wheel_count (choose_position world name n s).2 ≡ wheel_count s)
        × ((choose_position world name n s).2.wheel ≡ s.wheel)
  unfolding choose_position first_position
  choose_position-keeps world name n s =
      let (c, w) = set_filter_position-keeps world (pos 0) s in
      (ground (arith, c), ground (arith, w))

  undo_connect-IsLatched :
      (world : Wheel C M L) (s : System C M L)
      → wheel_count s ≡ 1
      → IsLatched (undo_connect world s)
  unfolding undo_connect IsLatched
  undo_connect-IsLatched world s h = ground (
    arith,
    h,
    count-release world.on_release DeviceName.filterwheel DeviceName.filterwheel s.session,
  )

  finish_connect-IsLatched :
      (world : Wheel C M L) (failed : Option Answer) (p : ℤ) (s : System C M L)
      → wheel_count s ≡ 1
      → IsLatched (finish_connect world (failed, p, s)).1
  unfolding finish_connect set_wheel
  finish_connect-IsLatched world (some answer) p s h = undo_connect-IsLatched world s h
  finish_connect-IsLatched world none p s h = latched h
    where
      latched :
          wheel_count s ≡ 1
          → IsLatched (set_wheel (record s.wheel { connected = true; position = some p }) s)
      latched e = unfold IsLatched in e

  connect_filters-IsLatched :
      (world : Wheel C M L) (labels : Option (List L)) (s : System C M L)
      → wheel_count s ≡ 1
      → IsLatched (connect_filters world labels s).1
  unfolding connect_filters set_wheel
  connect_filters-IsLatched world none s h = undo_connect-IsLatched world s h
  connect_filters-IsLatched world (some []) s h = undo_connect-IsLatched world s h
  connect_filters-IsLatched world (some (name ∷ names)) s h =
      let named = set_wheel (set_names (name ∷ names) s.wheel) s in
      let chosen = choose_position world name (length (name ∷ names)) named in
      finish_connect-IsLatched world chosen.0 chosen.1 chosen.2
        ((choose_position-keeps world name (length (name ∷ names)) named).0 ∙ h)

  if-IsLatched :
      (b : Bool) (x y : Answer × System C M L)
      → (b ≡ true → IsLatched x.1)
      → (b ≡ false → IsLatched y.1)
      → IsLatched (if b then x else y).1
  if-IsLatched true x y f g = f refl
  if-IsLatched false x y f g = g refl

  pub put_connected-IsLatched :
      (world : Wheel C M L) (value : Bool) (s : System C M L)
      → IsLatched s
      → IsLatched (put_connected world value s).1
  unfolding put_connected IsLatched
  put_connected-IsLatched world false s h =
      let counted =
        count-release world.on_release DeviceName.filterwheel DeviceName.filterwheel s.session in
      elim (Bool-cases s.wheel.connected) [
        | inl e ↦ ground (arith, h, e, counted)
        | inr e ↦ ground (arith, h, e)
      ]
  put_connected-IsLatched world true s h =
      let taken = acquire world.on_acquire DeviceName.filterwheel s.session in
      let s1 : System C M L = record s { session = taken.1 } in
      let counted =
        count-acquire world.on_acquire DeviceName.filterwheel DeviceName.filterwheel s.session in
      let connected = connect_filters world world.labels s1 in
      let tried : Answer × System C M L = if taken.0 then (unhandled, s1) else connected in
      let new : Answer × System C M L = if s.wheel.connected then (response, s) else tried in
      if-IsLatched (not world.has_filterwheel) (http_error 400, s) new (λ e. h)
        (λ e.
          if-IsLatched s.wheel.connected (response, s) tried (λ f. h)
            (λ f.
              if-IsLatched taken.0 (unhandled, s1) connected (λ g. ground (arith, h, f, g, counted))
                (λ g.
                  connect_filters-IsLatched world world.labels s1
                    (ground (arith, h, f, g, counted)))))

  pub put_position-IsLatched :
      (world : Wheel C M L) (p : ℤ) (s : System C M L)
      → IsLatched s
      → IsLatched (put_position world p s).1
  unfolding put_position IsLatched set_wheel
  put_position-IsLatched world p s h =
      let (c, w) = set_filter_position-keeps world p s in
      let same : (set_filter_position world p s).1.wheel.connected ≡ s.wheel.connected =
        ap (λ (v : FilterWheelState L). v.connected) w in
      ground (arith, h, c, same)

  pub get_position-IsLatched :
      (world : Wheel C M L) (s : System C M L) → IsLatched s → IsLatched (get_position world s).1
  unfolding get_position IsLatched set_wheel restore_position
  get_position-IsLatched world s h = ground (arith, h)

  pub get_names-IsLatched :
      (same_names : List L → List L → Bool) (world : Wheel C M L) (s : System C M L)
      → IsLatched s
      → IsLatched (get_names same_names world s).1
  unfolding get_names IsLatched set_wheel set_names
  get_names-IsLatched same_names world s h = ground (arith, h)

  pub get_focus_offsets-IsLatched :
      (world : Wheel C M L) (s : System C M L)
      → IsLatched s
      → IsLatched (get_focus_offsets world s).1
  unfolding get_focus_offsets IsLatched set_wheel
  get_focus_offsets-IsLatched world s h = ground (arith, h)

  pub preload_filters-IsLatched :
      (world : Wheel C M L) (s : System C M L) → IsLatched s → IsLatched (preload_filters world s)
  unfolding preload_filters IsLatched set_wheel set_names
  preload_filters-IsLatched world s h = ground (arith, h)
