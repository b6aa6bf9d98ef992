-- ===== src/Capture/Ready.antt =====
-- When `_handle_astro_capture_state_notification` of src/dwarf_alpaca/dwarf/session.py takes the
-- telescope for ready.
use dwarf_alp.Prelude.{
  ℕ, ◌<◌, ◌≡◌, ◌↔◌, ◌⊎◌, inl, inr, refl, ap, Bool, true, false, Option, none, some, List, [], ◌∷◌,
  ◌++◌, ◌==◌, Bool-cases, arith, length, if◌then◌else◌, ◌∙◌,
}
use dwarf_alp.Prelude.Int.{ℤ, pos, negsuc, pos_part}
use dwarf_alp.Wire.Fields.{decode_com_res_with_int_value}
use dwarf_alp.Wire.Fields.Message.{Field, encode_field, encode_message, IsMessage, field_pos}
use dwarf_alp.Wire.Fields.Integer.{first_int, decode_com_res-first}
use dwarf_alp.Capture.Notify.{
  CaptureState, is_empty, is_ready, decoded, reported_state,
  handle_astro_capture_state_notification, set_astro_capture_operation_state,
}

-- The first integer field with number 1, and zero where the message has no field at all.
abbrev pub reported : List Field → Option ℤ
reported [] = some (pos 0)
reported (f ∷ fs) = first_int (f ∷ fs)

is_empty-append : (xs ys : List ℕ) → 0 < length xs → is_empty (xs ++ ys) ≡ false
is_empty-append [] ys h = absurd (omega arith)
is_empty-append (x ∷ xs) ys h = refl

reported_state-message :
    (fs : List Field) → IsMessage fs → reported_state (encode_message fs) ≡ reported fs
unfolding reported_state
reported_state-message [] h = refl
reported_state-message (f ∷ fs) h =
    let raw = encode_message (f ∷ fs) in
    let full : is_empty raw ≡ false =
      is_empty-append (encode_field f) (encode_message fs) (field_pos f) in
    ap (λ (b : Bool). if b then some (pos 0) else decoded (decode_com_res_with_int_value raw)) full
    ∙ ap decoded (decode_com_res-first (f ∷ fs) h)

is_ready_iff : (v : ℤ) → (is_ready v ≡ true) ↔ ((v ≡ pos 0) ⊎ (v ≡ pos 3))
is_ready_iff (pos n) = (
  λ h. elim (Bool-cases (n == 0)) [
    | inl e ↦ inl (ap pos {x = n} {y = 0} (ground (arith, e)))
    | inr e ↦ inr (ap pos {x = n} {y = 3} (ground (arith, e, h)))
  ],
  λ h. elim h [ inl e ↦ ground (arith, ap pos_part e) | inr e ↦ ground (arith, ap pos_part e) ],
)
is_ready_iff (negsuc n) =
    (λ h. absurd (cc), λ h. elim h [ inl e ↦ absurd (cc) | inr e ↦ absurd (cc) ])

module _ {F : Type 0} where
  -- Nothing changes, or the state is recorded and the telescope is ready in two of the states.
  abbrev pub Records : Option ℤ → CaptureState F → CaptureState F → Type 0
  Records none s t = t ≡ s
  Records (some v) s t =
      (b : Bool) × (t
        ≡ record s { astro_capture_operation_state = some v; astro_capture_ready_event = b })
      × ((b ≡ true) ↔ ((v ≡ pos 0) ⊎ (v ≡ pos 3)))

  records :
      (raw : List ℕ) (v : Option ℤ) (s : CaptureState F)
      → reported_state raw ≡ v
      → Records v s (handle_astro_capture_state_notification raw s)
  unfolding handle_astro_capture_state_notification set_astro_capture_operation_state
  records raw none s e = ground (arith, e)
  records raw (some v) s e = (is_ready v, ground (arith, e), is_ready_iff v)

  pub capture_state-message :
      (fs : List Field) (s : CaptureState F)
      → IsMessage fs
      → Records (reported fs) s (handle_astro_capture_state_notification (encode_message fs) s)
  capture_state-message fs s h =
      records (encode_message fs) (reported fs) s (reported_state-message fs h)
