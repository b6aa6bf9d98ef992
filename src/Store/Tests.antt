-- ===== src/Store/Tests.antt =====
-- Runs of the state store and instances of its theorems.
use dwarf_alp.Prelude.{
  ◌≡◌, refl, ℕ, Bool, false, none, some, ◌^◌, [], ◌∷◌, Bool-cases, inl, inr, ◌==◌,
}
use dwarf_alp.Prelude.Int.{pos}
use dwarf_alp.Exposure.Json.{Text, null, int, text, object, Fields, end, field, codes, get}
use dwarf_alp.Exposure.Duration.{span}
use dwarf_alp.Exposure.Millis.{millis}
use dwarf_alp.Store.State.{
  ConnectivityState, loaded, type_error, overflow_error, load, save, has_unknown_key, overflows,
}
use dwarf_alp.Store.RoundTrip.{IsIdempotent, load-save, load-sanitized}

span_idem : (p : ℕ → Bool) (t : Text) → (span p (span p t).1).1 ≡ (span p t).1
span_idem p [] = refl
span_idem p (c ∷ rest) = elim (Bool-cases (p c)) [
  | inl e ↦ rw e (span_idem p rest)
  | inr e ↦ rw e (rw e refl)
]

strip-IsIdempotent : IsIdempotent millis
strip-IsIdempotent t = span_idem (λ c. c == b' ') t

abbrev state : ConnectivityState ℕ
state = record {
  sta_ip = text (codes "192.168.1.7");
  last_error = null;
  mode = text (codes "sta");
  wifi_credentials = (codes "home", codes "secret") ∷ (codes "guest", []) ∷ [];
  last_device_address = none;
  device_model = some (codes "dwarf3");
  timezone_name = some (codes " Europe/Berlin");
  site_latitude = some 52000;
  site_longitude = some 190000;
}

abbrev document : Fields ℕ
document =
    field (codes "mode") (text (codes "ap")) (field (codes "site_latitude") (int (pos 100)) end)

abbrev unknown : Fields ℕ
unknown = field (codes "battery") (int (pos 3)) end

-- The guest's empty password and a longitude over 180 are dropped.
saved : (save millis state).1 ≡ record state {
  wifi_credentials = (codes "home", codes "secret") ∷ [];
  timezone_name = some (codes "Europe/Berlin");
  site_longitude = none;
}
unfolding save
saved = refl

-- `float(10 ** 400)` raises.
abbrev huge : Fields ℕ
huge = field (codes "site_latitude") (int (pos (10 ^ 400))) end

huge_raises : load millis (some (object huge)) ≡ overflow_error
unfolding load get
huge_raises = refl

unknown_raises : load millis (some (object unknown)) ≡ type_error
unfolding load get
unknown_raises = refl

load-save_example : load millis (some (save millis state).0) ≡ loaded (save millis state).1
load-save_example = load-save millis strip-IsIdempotent state

document-fits : overflows millis (get (codes "site_latitude") document) ≡ false
unfolding overflows get
document-fits = refl

document-fits_longitude : overflows millis (get (codes "site_longitude") document) ≡ false
unfolding overflows get
document-fits_longitude = refl

load-sanitized_example :
    (t : ConnectivityState ℕ) × (load millis (some (object document)) ≡ loaded t)
    × ((save millis t).1 ≡ t)
load-sanitized_example =
    load-sanitized millis strip-IsIdempotent document (unfold has_unknown_key in refl) document-fits
      document-fits_longitude
