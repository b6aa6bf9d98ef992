-- ===== src/Ws/Dict.antt =====
-- Python dictionaries keyed by (module id, command id), as src/dwarf_alpaca/dwarf/ws_client.py keeps
-- its pending requests and their aliases. Each law has the form of a lookup.
use dwarf_alp.Prelude.{
  ℕ, ◌≡◌, refl, ◌↔◌, Bool, true, false, ◌&&◌, ◌||◌, Option, none, some, List, [], ◌∷◌, arith, ◌==◌,
  if◌then◌else◌,
}

pub record Key : Type 0 where
  pub module_id : ℕ
  pub command_id : ℕ

unfoldable pub key_eq : Key → Key → Bool
key_eq a b = a.module_id == b.module_id && a.command_id == b.command_id

pub key_eq_iff : (a b : Key) → (key_eq a b ≡ true) ↔ (a ≡ b)
unfolding key_eq
key_eq_iff a b = ground arith

pub key_eq_refl : (a : Key) → key_eq a a ≡ true
unfolding key_eq
key_eq_refl a = ground arith

abbrev pub Dict {ℓ} : Type ℓ → Type ℓ
Dict V = List (Key × V)

module _ {ℓ} {V : Type ℓ} where
  -- `d.get(k)`
  unfoldable pub lookup : Key → Dict V → Option V
  lookup k [] = none
  lookup k ((j, v) ∷ d) = if key_eq j k then some v else lookup k d

  -- `d[k] = v`
  unfoldable pub insert : Key → V → Dict V → Dict V
  insert k v [] = (k, v) ∷ []
  insert k v ((j, w) ∷ d) = if key_eq j k then (k, v) ∷ d else (j, w) ∷ insert k v d

  -- `d.pop(k, None)`
  unfoldable pub erase : Key → Dict V → Dict V
  erase k [] = []
  erase k ((j, w) ∷ d) = let rest = erase k d in if key_eq j k then rest else (j, w) ∷ rest

  -- `k in d`
  unfoldable pub contains : Key → Dict V → Bool
  unfolding lookup
  contains k d = elim (lookup k d) [ none ↦ false | some v ↦ true ]

  pub lookup-insert :
      (k j : Key) (v : V) (d : Dict V)
      → lookup j (insert k v d) ≡ (if key_eq k j then some v else lookup j d)
  unfolding lookup insert
  lookup-insert k j v [] = refl
  lookup-insert k j v ((i, w) ∷ d) =
      ground (arith, lookup-insert k j v d, key_eq_iff i k, key_eq_iff i j, key_eq_iff k j)

  pub lookup-erase :
      (k j : Key) (d : Dict V) → lookup j (erase k d) ≡ (if key_eq k j then none else lookup j d)
  unfolding lookup erase
  lookup-erase k j [] = ground arith
  lookup-erase k j ((i, w) ∷ d) =
      ground (arith, lookup-erase k j d, key_eq_iff i k, key_eq_iff i j, key_eq_iff k j)

  pub contains-cons :
      (k j : Key) (v : V) (d : Dict V) → contains k ((j, v) ∷ d) ≡ (key_eq j k || contains k d)
  unfolding contains
  contains-cons k j v d = ground arith
