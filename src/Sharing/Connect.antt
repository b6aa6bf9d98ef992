-- ===== src/Sharing/Connect.antt =====
-- What a successful connect of the filter wheel, src/dwarf_alpaca/devices/filterwheel.py, leaves.
use dwarf_alp.Prelude.{
  ℕ, suc, ◌≡◌, refl, Bool, true, false, not, Option, none, some, List, [], ◌∷◌, arith,
  if◌then◌else◌, Option-cases, inl, inr, ap, ◌∙◌, length,
}
use dwarf_alp.Prelude.Int.{ℤ, pos, negsuc}
use dwarf_alp.Sharing.Session.{DeviceName, Session, acquire}
use dwarf_alp.Sharing.Wheel.{
  FilterWheelState, System, Wheel, Answer, in_range, is_index, set_names, set_wheel,
  set_filter_position, first_position, choose_position, finish_connect, undo_connect,
  connect_filters, put_connected, response, http_error, unhandled,
}
use dwarf_alp.Sharing.Latch.{choose_position-keeps}

is_index_refl : (p : ℤ) → is_index (some p) p ≡ true
is_index_refl (pos n) = ground arith
is_index_refl (negsuc n) = ground arith

module _ {C M L : Type 0} where
  set_filter_position-index :
      (world : Wheel C M L) (p : ℤ) (s : System C M L)
      → (set_filter_position world p s).0 ≡ none
      → is_index (set_filter_position world p s).1.filter_index p ≡ true
  unfolding set_filter_position
  set_filter_position-index world p s h = ground (arith, h, is_index_refl p)

  choose_position-index :
      (world : Wheel C M L) (name : L) (n : ℕ) (s : System C M L)
      → (choose_position world name (suc n) s).0 ≡ none
      → (is_index
            (choose_position world name (suc n) s).2.filter_index
            (choose_position world name (suc n) s).1
          ≡ true)
        × (in_range (choose_position world name (suc n) s).1 (suc n) ≡ true)
  unfolding choose_position first_position
  choose_position-index world name n s h = elim (Option-cases s.filter_index) [
    | inl e ↦
        (ground (arith, h, e, set_filter_position-index world (pos 0) s), ground (arith, h, e))
    | inr (i, e) ↦ (
      ground (arith, h, e, is_index_refl i, set_filter_position-index world (pos 0) s),
      ground (arith, h, e),
    )
  ]

  -- The wheel is connected, carries the session's labels, and stands at the filter that the session
  -- has selected, one of the labels.
  abbrev pub Selected : Wheel C M L → System C M L → Type 0
  Selected world t =
      (names : List L) × (world.labels ≡ some names)
      × (t.wheel.names ≡ names)
      × (p : ℤ) × (t.wheel.position ≡ some p)
      × (is_index t.filter_index p ≡ true)
      × (in_range p (length names) ≡ true)

  finish_connect-Selected :
      (world : Wheel C M L) (failed : Option Answer) (p : ℤ) (name : L) (names : List L)
      (s : System C M L)
      → world.labels ≡ some (name ∷ names)
      → s.wheel.names ≡ name ∷ names
      → (failed ≡ none
          → (is_index s.filter_index p ≡ true) × (in_range p (length (name ∷ names)) ≡ true))
      → (finish_connect world (failed, p, s)).1.wheel.connected ≡ true
      → Selected world (finish_connect world (failed, p, s)).1
  unfolding finish_connect set_wheel undo_connect
  finish_connect-Selected world none p name names s l n f h =
      let (i, r) = f refl in (name ∷ names, l, n, p, refl, i, r)
  finish_connect-Selected world (some answer) p name names s l n f h = absurd (cc)

  connect_filters-Selected :
      (world : Wheel C M L) (labels : Option (List L)) (s : System C M L)
      → world.labels ≡ labels
      → (connect_filters world labels s).1.wheel.connected ≡ true
      → Selected world (connect_filters world labels s).1
  unfolding connect_filters undo_connect
  connect_filters-Selected world none s l h = absurd (cc)
  connect_filters-Selected world (some []) s l h = absurd (cc)
  connect_filters-Selected world (some (name ∷ names)) s l h =
      let named = set_wheel (set_names (name ∷ names) s.wheel) s in
      let chosen = choose_position world name (length (name ∷ names)) named in
      finish_connect-Selected world chosen.0 chosen.1 name names chosen.2 l
        (ap (λ (w : FilterWheelState L). w.names)
            (choose_position-keeps world name (length (name ∷ names)) named).1
          ∙ named_names)
        (choose_position-index world name (length names) named) h
    where
      named_names : (set_wheel (set_names (name ∷ names) s.wheel) s).wheel.names ≡ name ∷ names
      named_names = unfold set_wheel set_names in refl

  if-Selected :
      (world : Wheel C M L) (b : Bool) (x y : Answer × System C M L)
      → (b ≡ true → x.1.wheel.connected ≡ true → Selected world x.1)
      → (b ≡ false → y.1.wheel.connected ≡ true → Selected world y.1)
      → (if b then x else y).1.wheel.connected ≡ true
      → Selected world (if b then x else y).1
  if-Selected world true x y f g h = f refl h
  if-Selected world false x y f g h = g refl h

  -- A connect request that finds the wheel disconnected and leaves it connected has given it the
  -- labels that the session found; the wheel's position is the filter that the session has selected,
  -- and it is the position of one of the labels. This covers a position that the session knew, the
  -- virtual selection of a DWARF mini, and the first filter of the other telescopes.
  pub put_connected-Selected :
      (world : Wheel C M L) (s : System C M L)
      → s.wheel.connected ≡ false
      → (put_connected world true s).1.wheel.connected ≡ true
      → Selected world (put_connected world true s).1
  unfolding put_connected
  put_connected-Selected world s off on =
      let taken = acquire world.on_acquire DeviceName.filterwheel s.session in
      let s1 : System C M L = record s { session = taken.1 } in
      let connected = connect_filters world world.labels s1 in
      let tried : Answer × System C M L = if taken.0 then (unhandled, s1) else connected in
      let new : Answer × System C M L = if s.wheel.connected then (response, s) else tried in
      if-Selected world (not world.has_filterwheel) (http_error 400, s) new (λ e h. absurd (cc))
        (λ e.
          if-Selected world s.wheel.connected (response, s) tried (λ f h. absurd (cc))
            (λ f.
              if-Selected world taken.0 (unhandled, s1) connected (λ g h. absurd (cc))
                (λ g. connect_filters-Selected world world.labels s1 refl)))
        on

  -- `shutdown_session` detaches the session, and the next `get_session` makes a new one; the wheel's
  -- state is the module's and stays.
  abbrev pub restart : Session C M → System C M L → System C M L
  restart fresh s = record s { session = fresh }

  -- After the session of a connected filter wheel was shut down and made anew, a connect request
  -- answers with success but takes no reference to the new session, and so do any two in a row.
  pub restart_connects_nothing :
      (world again : Wheel C M L) (fresh : Session C M) (s : System C M L)
      → world.has_filterwheel ≡ true
      → again.has_filterwheel ≡ true
      → s.wheel.connected ≡ true
      → let (first, s1) = put_connected world true (restart fresh s) in
        let (second, s2) = put_connected again true s1 in
        (first ≡ response)
        × (second ≡ response)
        × (s2.wheel.connected ≡ true)
        × (s2.session ≡ fresh)
  unfolding put_connected
  restart_connects_nothing world again fresh s has has' on = (
    ground (arith, has, on),
    ground (arith, has, has', on),
    ground (arith, has, has', on),
    ground (arith, has, has', on),
  )
