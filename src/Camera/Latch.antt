-- ===== src/Camera/Latch.antt =====
-- The camera of src/dwarf_alpaca/devices/camera.py holds the session while it is connected.
use dwarf_alp.Prelude.{
  ℕ, ◌≡◌, true, false, not, ◌||◌, none, some, arith, if◌then◌else◌, Bool-cases, ◌&&◌, inl, inr, ap,
}
use dwarf_alp.Sharing.Session.{DeviceName, Refs, acquire}
use dwarf_alp.Sharing.Release.{ensure_ws-refs}
use dwarf_alp.Sharing.Counts.{count-acquire, count-release}
use dwarf_alp.Camera.Connect.{
  Link, LinkWorld, camera_connect, camera_disconnect, release_camera, finish_connect,
  put_camera_connected,
}

module _ {C M F I : Type 0} where
  abbrev pub camera_count : Link C M F I → ℕ
  camera_count s = s.session.refs.camera

  -- One reference while the camera is connected and none otherwise, and the request knows that it is.
  unfoldable pub IsLatched : Link C M F I → Type 0
  IsLatched s =
      (camera_count s ≡ (if s.camera.connected then 1 else 0))
      × ((not s.camera.connected || s.device.connected) ≡ true)

  camera_connect-keeps :
      (world : LinkWorld C M) (s : Link C M F I)
      → (camera_count (camera_connect world s).1 ≡ camera_count s)
        × ((camera_connect world s).1.device ≡ s.device)
  unfolding camera_connect
  camera_connect-keeps world s = (
    ground (arith, ap (λ (r : Refs). r.camera) (ensure_ws-refs world.on_connect s.session)),
    ground arith,
  )

  -- A connect that raises leaves the camera as it was, and one that returns connects it.
  camera_connect-connects :
      (world : LinkWorld C M) (s : Link C M F I)
      → (camera_connect world s).1.camera.connected
        ≡ elim (camera_connect world s).0 [ none ↦ true | some e ↦ s.camera.connected ]
  unfolding camera_connect
  camera_connect-connects world s = ground arith

  finish_connect-IsLatched :
      (world : LinkWorld C M) (s : Link C M F I)
      → camera_count s ≡ 1
      → s.camera.connected ≡ false
      → IsLatched (finish_connect world s).1
  unfolding finish_connect IsLatched release_camera
  finish_connect-IsLatched world s one off =
      let t = (camera_connect world s).1 in
      let (kept, device) = camera_connect-keeps world s in
      ground (
        arith,
        one,
        off,
        kept,
        camera_connect-connects world s,
        count-release world.on_release DeviceName.camera DeviceName.camera t.session,
      )

  pub connect-IsLatched :
      (world : LinkWorld C M) (s : Link C M F I)
      → IsLatched s
      → IsLatched (put_camera_connected world true s).1
  unfolding put_camera_connected IsLatched
  connect-IsLatched world s (count, known) =
      let acquired = acquire world.on_acquire DeviceName.camera s.session in
      let s1 : Link C M F I = record s { session = acquired.1 } in
      let counted = count-acquire world.on_acquire DeviceName.camera DeviceName.camera s.session in
      elim (Bool-cases (s.device.connected && s.camera.connected)) [
        | inl q ↦ rw q (count, known)
        | inr q ↦
            let off : s.camera.connected ≡ false = ground (arith, known, q) in
            elim (Bool-cases acquired.0) [
              | inl f ↦ rw (q, f) (ground (arith, counted, f, count), known)
              | inr f ↦
                  rw (q, f)
                    (unfold IsLatched in
                      finish_connect-IsLatched world s1 (ground (arith, counted, f, count, off))
                        off)
            ]
      ]

  camera_disconnect-keeps :
      (world : LinkWorld C M) (s : Link C M F I)
      → world.capture_raises ≡ false
      → (camera_count (camera_disconnect world s).1 ≡ camera_count s)
        × ((camera_disconnect world s).1.camera.connected ≡ false)
        × ((camera_disconnect world s).1.device ≡ s.device)
  unfolding camera_disconnect
  camera_disconnect-keeps world s quiet =
      let ws = ap (λ (r : Refs). r.camera) (ensure_ws-refs world.on_disconnect s.session) in
      (ground (arith, quiet, ws), ground (arith, quiet), ground (arith, quiet))

  pub disconnect-IsLatched :
      (world : LinkWorld C M) (s : Link C M F I)
      → world.capture_raises ≡ false
      → IsLatched s
      → IsLatched (put_camera_connected world false s).1
  unfolding put_camera_connected release_camera IsLatched
  disconnect-IsLatched world s quiet (count, known) =
      let (failed, t) = camera_disconnect world s in
      let (kept, off, device) = camera_disconnect-keeps world s quiet in
      let released = count-release world.on_release DeviceName.camera DeviceName.camera t.session in
      elim (Bool-cases (s.device.connected || s.camera.connected)) [
        | inr q ↦ rw q (count, ground (arith, q))
        | inl q ↦ elim (Bool-cases failed) [
          | inl f ↦ rw (q, f) (ground (arith, count, kept, off, released), ground (arith, off))
          | inr f ↦ rw (q, f) (ground (arith, count, kept, off, released), ground (arith, off))
        ]
      ]
