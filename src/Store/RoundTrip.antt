-- ===== src/Store/RoundTrip.antt =====
-- What src/dwarf_alpaca/dwarf/state.py saves it loads again.
use dwarf_alp.Prelude.{ℕ, ◌≡◌, refl, ap, ◌∙◌, true, false, Option, none, some, List, [], ◌∷◌, arith}
use dwarf_alp.Exposure.Json.{
  Text, Json, null, boolean, int, float, text, array, object, Fields, end, field, get, codes,
}
use dwarf_alp.Prelude.Int.{pos}
use dwarf_alp.Exposure.Floats.{Python}
use dwarf_alp.Store.State.{
  ConnectivityState, loaded, text_or_none, has_unknown_key, load_passwords, load_credentials,
  load_text, dump_text, dump_number, dump_credentials, sanitize_credentials, limit_number,
  load_number, load_timezone, overflows, load_fields, load, sanitize_timezone, sanitize_number,
  sanitized, dump, save, or_default,
}

sanitize_idem :
    (c : List (Text × Text))
    → sanitize_credentials (sanitize_credentials c) ≡ sanitize_credentials c
unfolding sanitize_credentials
sanitize_idem [] = refl
sanitize_idem ((ssid, password) ∷ rest) = ground (arith, sanitize_idem rest)

module _ (F : Type 0) where
  load-dump_credentials :
      (c : List (Text × Text))
      → load_passwords {F = F} (dump_credentials c) ≡ sanitize_credentials c
  unfolding load_passwords dump_credentials sanitize_credentials
  load-dump_credentials [] = refl
  load-dump_credentials ((ssid, password) ∷ rest) = ground (arith, load-dump_credentials rest)

  load-dump_text : (t : Option Text) → load_text {F = F} (some (dump_text t)) ≡ t
  unfolding load_text dump_text
  load-dump_text none = refl
  load-dump_text (some t) = refl

module _ {F : Type 0} where
  sanitize-load_passwords :
      (fs : Fields F) → sanitize_credentials (load_passwords fs) ≡ load_passwords fs
  unfolding load_passwords sanitize_credentials
  sanitize-load_passwords end = refl
  sanitize-load_passwords (field ssid (text password) rest) =
      ground (arith, sanitize-load_passwords rest)
  sanitize-load_passwords (field ssid null rest) = sanitize-load_passwords rest
  sanitize-load_passwords (field ssid (boolean b) rest) = sanitize-load_passwords rest
  sanitize-load_passwords (field ssid (int z) rest) = sanitize-load_passwords rest
  sanitize-load_passwords (field ssid (float f) rest) = sanitize-load_passwords rest
  sanitize-load_passwords (field ssid (array xs) rest) = sanitize-load_passwords rest
  sanitize-load_passwords (field ssid (object fs) rest) = sanitize-load_passwords rest

module _ {F : Type 0} (py : Python F) where
  -- Stripping twice strips once.
  abbrev pub IsIdempotent : Type 0
  IsIdempotent = (t : Text) → py.strip (py.strip t) ≡ py.strip t

  timezone_idem :
      IsIdempotent
      → (t : Option Text) → sanitize_timezone py (sanitize_timezone py t) ≡ sanitize_timezone py t
  unfolding sanitize_timezone
  timezone_idem strips none = refl
  timezone_idem strips (some t) = go (py.strip t) (strips t)
    where
      go : (u : Text) → py.strip u ≡ u → sanitize_timezone py (text_or_none u) ≡ text_or_none u
      go [] e = refl
      go (c ∷ rest) e = ap text_or_none e

  load-dump_timezone :
      (t : Option Text) → load_timezone py (some (dump_text t)) ≡ sanitize_timezone py t
  unfolding load_timezone dump_text sanitize_timezone
  load-dump_timezone none = refl
  load-dump_timezone (some t) = refl

  load-dump_number :
      (n : ℕ) (x : Option F) → load_number py n (some (dump_number x)) ≡ sanitize_number py n x
  unfolding load_number dump_number sanitize_number
  load-dump_number n none = refl
  load-dump_number n (some x) = refl

  -- `float` takes every number that was written.
  overflows-dump : (x : Option F) → overflows py (some (dump_number x)) ≡ false
  unfolding overflows dump_number
  overflows-dump none = refl
  overflows-dump (some x) = refl

  limit-limit_number :
      (n : ℕ) (x : F) → sanitize_number py n (limit_number py n x) ≡ limit_number py n x
  unfolding sanitize_number limit_number
  limit-limit_number n x = ground arith

  number_idem :
      (n : ℕ) (x : Option F)
      → sanitize_number py n (sanitize_number py n x) ≡ sanitize_number py n x
  unfolding sanitize_number
  number_idem n none = refl
  number_idem n (some x) = limit-limit_number n x

  -- What `save` writes `load` reads as the state that `save` keeps: after a save, a new process has
  -- the state of the old one. This uses that stripping a text twice strips it once.
  pub load-save :
      IsIdempotent → (s : ConnectivityState F) → load py (some (save py s).0) ≡ loaded (save py s).1
  unfolding load save dump sanitized load_fields has_unknown_key get or_default load_credentials
  load-save strips s =
      let t = sanitized py s in
      let credentials : load_credentials
            (some (object (dump_credentials {F = F} t.wifi_credentials)))
          ≡ t.wifi_credentials =
        load-dump_credentials F t.wifi_credentials ∙ sanitize_idem s.wifi_credentials in
      let address = load-dump_text F t.last_device_address in
      let model = load-dump_text F t.device_model in
      let timezone = load-dump_timezone t.timezone_name ∙ timezone_idem strips s.timezone_name in
      let latitude = load-dump_number 90 t.site_latitude ∙ number_idem 90 s.site_latitude in
      let longitude = load-dump_number 180 t.site_longitude ∙ number_idem 180 s.site_longitude in
      rw (overflows-dump t.site_latitude, overflows-dump t.site_longitude)
        (λ i. loaded (record {
          sta_ip = s.sta_ip;
          last_error = s.last_error;
          mode = s.mode;
          wifi_credentials = credentials i;
          last_device_address = address i;
          device_model = model i;
          timezone_name = timezone i;
          site_latitude = latitude i;
          site_longitude = longitude i;
        }))

  load_credentials-sanitized :
      (v : Option (Json F)) → sanitize_credentials (load_credentials v) ≡ load_credentials v
  unfolding load_credentials sanitize_credentials
  load_credentials-sanitized none = refl
  load_credentials-sanitized (some (object fs)) = sanitize-load_passwords fs
  load_credentials-sanitized (some null) = refl
  load_credentials-sanitized (some (boolean b)) = refl
  load_credentials-sanitized (some (int z)) = refl
  load_credentials-sanitized (some (float f)) = refl
  load_credentials-sanitized (some (text t)) = refl
  load_credentials-sanitized (some (array xs)) = refl

  load_timezone-sanitized :
      IsIdempotent
      → (v : Option (Json F)) → sanitize_timezone py (load_timezone py v) ≡ load_timezone py v
  unfolding load_timezone sanitize_timezone
  load_timezone-sanitized strips none = refl
  load_timezone-sanitized strips (some (text t)) = timezone_idem strips (some t)
  load_timezone-sanitized strips (some null) = refl
  load_timezone-sanitized strips (some (boolean b)) = refl
  load_timezone-sanitized strips (some (int z)) = refl
  load_timezone-sanitized strips (some (float f)) = refl
  load_timezone-sanitized strips (some (array xs)) = refl
  load_timezone-sanitized strips (some (object fs)) = refl

  load_number-sanitized :
      (n : ℕ) (v : Option (Json F)) → sanitize_number py n (load_number py n v) ≡ load_number py n v
  unfolding load_number sanitize_number
  load_number-sanitized n none = refl
  load_number-sanitized n (some null) = refl
  load_number-sanitized n (some (boolean true)) = limit-limit_number n (py.of_int (pos 1))
  load_number-sanitized n (some (boolean false)) = limit-limit_number n (py.of_int (pos 0))
  load_number-sanitized n (some (int z)) = limit-limit_number n (py.of_int z)
  load_number-sanitized n (some (float f)) = limit-limit_number n f
  load_number-sanitized n (some (text t)) = refl
  load_number-sanitized n (some (array xs)) = refl
  load_number-sanitized n (some (object fs)) = refl

  sanitized-load_fields :
      IsIdempotent → (fs : Fields F) → sanitized py (load_fields py fs) ≡ load_fields py fs
  unfolding sanitized load_fields
  sanitized-load_fields strips fs =
      let t = load_fields py fs in
      let credentials = load_credentials-sanitized (get (codes "wifi_credentials") fs) in
      let timezone = load_timezone-sanitized strips (get (codes "timezone_name") fs) in
      let latitude = load_number-sanitized 90 (get (codes "site_latitude") fs) in
      let longitude = load_number-sanitized 180 (get (codes "site_longitude") fs) in
      λ i. record t {
        wifi_credentials = credentials i;
        timezone_name = timezone i;
        site_latitude = latitude i;
        site_longitude = longitude i;
      }

  -- Every document that has no unknown key, and in which neither coordinate is an integer too large for
  -- a float, loads, and the state that it gives is one that `save` keeps as it is: its credentials have
  -- passwords, its timezone is stripped and not empty, its coordinates are within their bounds. This
  -- uses that stripping a text twice strips it once.
  pub load-sanitized :
      IsIdempotent
      → (fs : Fields F) → has_unknown_key fs ≡ false
      → overflows py (get (codes "site_latitude") fs) ≡ false
      → overflows py (get (codes "site_longitude") fs) ≡ false
      → (t : ConnectivityState F) × (load py (some (object fs)) ≡ loaded t) × ((save py t).1 ≡ t)
  unfolding load save
  load-sanitized strips fs known latitude longitude =
      (load_fields py fs, rw (latitude, longitude, known) refl, sanitized-load_fields strips fs)
