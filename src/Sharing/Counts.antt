-- ===== src/Sharing/Counts.antt =====
-- What `acquire` and `release` of src/dwarf_alpaca/dwarf/session.py do to each count.
use dwarf_alp.Prelude.{
  ◌+◌, ◌-◌, ◌≡◌, Bool, true, false, not, ◌&&◌, arith, if◌then◌else◌, Bool-cases, inl, inr, ap, ◌∙◌,
  subst, sym,
}
use dwarf_alp.Sharing.Session.{
  DeviceName, Refs, count, set_count, is_unused, Session, World, set_refs, ensure_ws, acquire,
  release, close_session,
}
use dwarf_alp.Sharing.Holders.{same_device, count-set_count}
use dwarf_alp.Sharing.Release.{ensure_ws-refs, close_session-refs}

undone_count :
    (d e : DeviceName) (r : Refs)
    → count e
        (set_count d (count d (set_count d (count d r + 1) r) - 1) (set_count d (count d r + 1) r))
      ≡ count e r + 0
undone_count d e r =
    let up = set_count d (count d r + 1) r in
    ground (
      arith,
      count-set_count d e (count d up - 1) up,
      count-set_count d e (count d r + 1) r,
      count-set_count d d (count d r + 1) r,
    )

module _ {C M : Type 0} where
  pub count-acquire :
      (world : World C M) (d e : DeviceName) (s : Session C M)
      → count e (acquire world d s).1.refs
        ≡ count e s.refs + (if not (acquire world d s).0 && same_device d e then 1 else 0)
  unfolding acquire set_refs
  count-acquire world d e s =
      let up = set_count d (count d s.refs + 1) s.refs in
      let s0 : Session C M = set_refs d (count d s.refs + 1) s in
      let s1 = (ensure_ws world s0).1 in
      let refs : s1.refs ≡ up = ensure_ws-refs world s0 in
      let undone : Session C M = set_refs d (count d s1.refs - 1) s1 in
      let P : Bool × Session C M → Type 0 = λ (failed, t).
        count e t.refs ≡ count e s.refs + (if not failed && same_device d e then 1 else 0) in
      let result : Bool → Bool × Session C M = λ b. if b then (true, undone) else (false, s1) in
      elim (Bool-cases (ensure_ws world s0).0) [
        | inl q ↦ subst P (ap result (sym q)) (
            ap (λ (r : Refs). count e (set_count d (count d r - 1) r)) refs
            ∙ undone_count d e s.refs)
        | inr q ↦
            subst P (ap result (sym q))
              (ap (count e) refs ∙ ground (arith, count-set_count d e (count d s.refs + 1) s.refs))
      ]

  pub count-release :
      (world : World C M) (d e : DeviceName) (s : Session C M)
      → count e (release world d s).refs ≡ count e s.refs - (if same_device d e then 1 else 0)
  unfolding release set_refs
  count-release world d e s =
      let s1 : Session C M = set_refs d (count d s.refs - 1) s in
      let test : Bool = not s1.simulation && is_unused s1.refs in
      let same : (release world d s).refs ≡ set_count d (count d s.refs - 1) s.refs =
        elim (Bool-cases test) [
          | inl q ↦
              ap (λ (b : Bool). (if b then close_session world s1 else s1).refs) q
              ∙ close_session-refs world s1
          | inr q ↦ ap (λ (b : Bool). (if b then close_session world s1 else s1).refs) q
        ] in
      ap (count e) same ∙ ground (arith, count-set_count d e (count d s.refs - 1) s.refs)

  -- A device that is not the filter wheel closes nothing while the filter wheel holds the session.
  pub other_release_keeps :
      (world : World C M) (d : DeviceName) (s : Session C M)
      → same_device d DeviceName.filterwheel ≡ false
      → s.refs.filterwheel ≡ 1
      → (release world d s).ws_client ≡ s.ws_client
  unfolding release set_refs
  other_release_keeps world d s other one =
      let s1 : Session C M = set_refs d (count d s.refs - 1) s in
      let test : Bool = not s1.simulation && is_unused s1.refs in
      let used : test ≡ false =
        ground (
          arith,
          one,
          other,
          count-set_count d DeviceName.filterwheel (count d s.refs - 1) s.refs,
        ) in
      ap (λ (b : Bool). (if b then close_session world s1 else s1).ws_client) used
