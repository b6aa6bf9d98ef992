-- ===== src/Sharing/Wheel.antt =====
-- The filter wheel: the requests of src/dwarf_alpaca/devices/filterwheel.py that change its state, and
-- `set_filter_position` and `get_filter_position` of src/dwarf_alpaca/dwarf/session.py. Labels are of a
-- type `L`. `_connect_lock` makes each `put_connected` one step.
use dwarf_alp.Prelude.{
  ℕ, suc, Bool, true, false, not, ◌&&◌, ◌||◌, Option, none, some, List, [], ◌∷◌, ◌==◌,
  if◌then◌else◌, length, ltb, get_elem?, replicate,
}
use dwarf_alp.Prelude.Int.{ℤ, pos, negsuc}
use dwarf_alp.Sharing.Session.{Session, World, DeviceName, acquire, release, ensure_ws}

pub record FilterWheelState (L : Type 0) : Type 0 where
  pub connected : Bool
  pub position : Option ℤ
  pub names : List L
  pub focus_offsets : List ℤ

-- The session with what `camera_state` says of the filter.
pub record System (C M L : Type 0) : Type 0 where
  pub session : Session C M
  pub filter_index : Option ℤ
  pub filter_name : L
  pub wheel : FilterWheelState L

-- Why a filter could not be selected, by the handlers of `put_connected`.
pub data FilterError : Type 0 where
  out_of_range control_unavailable already_pending runtime_error timed_out other_error : FilterError

-- The profile of the telescope, and what happens outside during a request: the labels and the
-- options that the session finds (`none` where that raises), and how `_apply_filter_option` ends.
pub record Wheel (C M L : Type 0) : Type 0 where
  pub has_filterwheel : Bool
  pub is_mini : Bool
  pub profile_labels : List L
  pub labels : Option (List L)
  pub options : Option (List L)
  pub applied : Option FilterError
  pub same_label : L → L → Bool
  pub is_blank : L → Bool
  pub on_acquire : World C M
  pub on_move : World C M
  pub on_release : World C M

-- What a request answers: a response, an HTTP error, or an exception that no handler catches.
pub data Answer : Type 0 where
  response : Answer
  http_error : ℕ → Answer
  unhandled : Answer

-- `0 <= position < count`
abbrev pub in_range : ℤ → ℕ → Bool
in_range (pos n) count = ltb n count
in_range (negsuc n) count = false

abbrev pub is_index : Option ℤ → ℤ → Bool
is_index (some (pos a)) (pos b) = a == b
is_index (some (negsuc a)) (negsuc b) = a == b
is_index _ _ = false

-- `options[position]`
abbrev pub get_at : {L : Type 0} → List L → ℤ → Option L
get_at options (pos n) = get_elem? options n
get_at options (negsuc n) = none

module _ {L : Type 0} where
  unfoldable pub set_names : List L → FilterWheelState L → FilterWheelState L
  set_names names w = record w {
    names = names;
    focus_offsets = replicate (length names) (pos 0);
    position = elim w.position [
      | none ↦ none
      | some position ↦ if in_range position (length names) then some position else none
    ];
  }

module _ {C M L : Type 0} where
  unfoldable pub set_wheel : FilterWheelState L → System C M L → System C M L
  set_wheel w s = record s { wheel = w }

  -- `set_filter_position` of the session; beside the state, how it raised.
  unfoldable pub set_filter_position :
      Wheel C M L → ℤ → System C M L → Option FilterError × System C M L
  unfolding ensure_ws
  set_filter_position world position s = elim world.options [
    | none ↦ (some other_error, s)
    | some options ↦ elim (get_at options position) [
      | none ↦ (some out_of_range, s)
      | some label ↦
          if is_index s.filter_index position
            && not (world.is_blank s.filter_name)
            && world.same_label s.filter_name label
          then (none, s)
          else let (failed, session) = ensure_ws world.on_move s.session in
            let s1 : System C M L = record s { session = session } in
            if failed then (some other_error, s1) else elim world.applied [
              | some error ↦ (some error, s1)
              | none ↦ (none, record s1 { filter_index = some position; filter_name = label })
            ]
    ]
  ]

  -- `preload_filters`
  unfoldable pub preload_filters : Wheel C M L → System C M L → System C M L
  unfolding set_names set_wheel
  preload_filters world s = elim world.labels [
    | none ↦ s
    | some [] ↦ s
    | some (name ∷ names) ↦
        let w = set_names (name ∷ names) s.wheel in
        set_wheel
          (elim s.filter_index [
            | none ↦ w
            | some position ↦
                if in_range position (length (name ∷ names))
                then record w { position = some position }
                else w
          ])
          s
  ]

  -- The first position of a telescope with a filter motor: beside the state, the answer of a failure.
  unfoldable pub first_position : Wheel C M L → L → System C M L → Option Answer × System C M L
  unfolding set_filter_position
  first_position world name s =
      let (failed, s1) = set_filter_position world (pos 0) s in
      let virtual : System C M L = record s1 { filter_index = some (pos 0); filter_name = name } in
      elim failed [
        | none ↦ (none, s1)
        | some control_unavailable ↦ (some (http_error 503), s1)
        | some already_pending ↦
            if world.is_mini then (none, virtual) else (some (http_error 500), s1)
        | some timed_out ↦ if world.is_mini then (none, virtual) else (some (http_error 500), s1)
        | some out_of_range ↦ (some (http_error 500), s1)
        | some runtime_error ↦ (some (http_error 500), s1)
        | some other_error ↦ (some (http_error 500), s1)
      ]

  -- `position` of the wheel when it is connected; `name` is the first of `count` names.
  unfoldable pub choose_position :
      Wheel C M L → L → ℕ → System C M L → Option Answer × ℤ × System C M L
  unfolding first_position
  choose_position world name count s =
      let known : Bool = elim s.filter_index [ none ↦ false | some i ↦ in_range i count ] in
      let current : ℤ = elim s.filter_index [ none ↦ pos 0 | some i ↦ i ] in
      let (failed, s1) = first_position world name s in
      if known
      then (none, current, s)
      else if world.is_mini
      then (none, pos 0, record s { filter_index = some (pos 0); filter_name = name })
      else (failed, pos 0, s1)

  -- What the handlers of a failure do.
  unfoldable pub undo_connect : Wheel C M L → System C M L → System C M L
  unfolding release
  undo_connect world s = record s {
    wheel = record s.wheel { connected = false; position = none };
    session = release world.on_release DeviceName.filterwheel s.session;
  }

  -- The end of the `try` in `put_connected` with its handlers: `failed` is how it fails.
  unfoldable pub finish_connect :
      Wheel C M L → Option Answer × ℤ × System C M L → Answer × System C M L
  unfolding set_wheel undo_connect
  finish_connect world (some answer, position, s) = (answer, undo_connect world s)
  finish_connect world (none, position, s) =
      (response, set_wheel (record s.wheel { connected = true; position = some position }) s)

  -- The `try` by the labels that the session finds.
  unfoldable pub connect_filters :
      Wheel C M L → Option (List L) → System C M L → Answer × System C M L
  unfolding set_names set_wheel choose_position undo_connect finish_connect
  connect_filters world none s = (http_error 500, undo_connect world s)
  connect_filters world (some []) s = (http_error 500, undo_connect world s)
  connect_filters world (some (name ∷ names)) s = finish_connect world (
      choose_position world name (suc (length names))
        (set_wheel (set_names (name ∷ names) s.wheel) s))

  unfoldable pub put_connected : Wheel C M L → Bool → System C M L → Answer × System C M L
  unfolding acquire release connect_filters
  put_connected world true s =
      let (failed, session) = acquire world.on_acquire DeviceName.filterwheel s.session in
      let s1 : System C M L = record s { session = session } in
      if not world.has_filterwheel
      then (http_error 400, s)
      else if s.wheel.connected
      then (response, s)
      else if failed
      then (unhandled, s1)
      else connect_filters world world.labels s1
  put_connected world false s =
      let session =
        if s.wheel.connected
        then release world.on_release DeviceName.filterwheel s.session
        else s.session in
      (
        response,
        record s {
          session = session;
          wheel = record s.wheel { connected = false; position = none };
        },
      )

  -- `get_names`; labels compare by `same_names`.
  unfoldable pub get_names :
      (List L → List L → Bool) → Wheel C M L → System C M L → Answer × System C M L
  unfolding set_names set_wheel
  get_names same_names world s =
      let w : FilterWheelState L = elim s.wheel.names [
        | name ∷ names ↦ s.wheel
        | [] ↦
            if s.wheel.connected
            then elim world.labels [ none ↦ s.wheel | some labels ↦ set_names labels s.wheel ]
            else s.wheel
      ] in
      let normalized = if world.is_mini then world.profile_labels else w.names in
      if not world.has_filterwheel then (http_error 400, s) else (
        response,
        set_wheel (if same_names normalized w.names then w else set_names normalized w) s,
      )

  unfoldable pub get_focus_offsets : Wheel C M L → System C M L → Answer × System C M L
  unfolding set_wheel
  get_focus_offsets world s =
      let count = length s.wheel.names in
      if not world.has_filterwheel
      then (http_error 400, s)
      else if length s.wheel.focus_offsets == count
      then (response, s)
      else (response, set_wheel (record s.wheel { focus_offsets = replicate count (pos 0) }) s)

  -- `get_position` where the session knows none.
  unfoldable pub restore_position : System C M L → Answer × System C M L
  restore_position s = elim s.wheel.position [
    | none ↦ (http_error 500, s)
    | some position ↦ (
      response,
      record s {
        filter_index = some position;
        filter_name = elim (get_at s.wheel.names position) [
          | none ↦ s.filter_name
          | some name ↦ name
        ];
      },
    )
  ]

  unfoldable pub get_position : Wheel C M L → System C M L → Answer × System C M L
  unfolding restore_position set_wheel
  get_position world s =
      if not world.has_filterwheel || not s.wheel.connected
      then (http_error 400, s)
      else elim s.filter_index [
        | none ↦ restore_position s
        | some position ↦ (response, set_wheel (record s.wheel { position = some position }) s)
      ]

  unfoldable pub put_position : Wheel C M L → ℤ → System C M L → Answer × System C M L
  unfolding set_filter_position set_wheel
  put_position world position s =
      let (failed, s1) = set_filter_position world position s in
      if not world.has_filterwheel || not s.wheel.connected
      then (http_error 400, s)
      else if not (in_range position (length s.wheel.names))
      then (http_error 400, s)
      else elim failed [
        | some out_of_range ↦ (http_error 400, s1)
        | some control_unavailable ↦ (http_error 500, s1)
        | some already_pending ↦ (http_error 500, s1)
        | some runtime_error ↦ (http_error 500, s1)
        | some timed_out ↦ (http_error 500, s1)
        | some other_error ↦ (http_error 500, s1)
        | none ↦ (response, set_wheel (record s1.wheel { position = some position }) s1)
      ]
