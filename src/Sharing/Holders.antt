-- ===== src/Sharing/Holders.antt =====
-- The counts of src/dwarf_alpaca/dwarf/session.py, `_refs`, and the lists of devices that they count.
use dwarf_alp.Prelude.{
  ℕ, ◌+◌, ◌-◌, ◌≡◌, sym, subst, Bool, true, false, List, [], ◌∷◌, arith, ◌==◌, if◌then◌else◌,
  Bool-cases, inl, inr,
}
use dwarf_alp.Sharing.Session.{DeviceName, Refs, no_refs, count, set_count, is_unused}

abbrev pub rank : DeviceName → ℕ
rank DeviceName.telescope = 0
rank DeviceName.camera = 1
rank DeviceName.focuser = 2
rank DeviceName.filterwheel = 3

abbrev pub same_device : DeviceName → DeviceName → Bool
same_device d e = rank d == rank e

-- How often a device stands in a list.
abbrev pub occurrences : DeviceName → List DeviceName → ℕ
occurrences d [] = 0
occurrences d (e ∷ bag) = (if same_device e d then 1 else 0) + occurrences d bag

-- One occurrence taken out.
abbrev pub remove : DeviceName → List DeviceName → List DeviceName
remove d [] = []
remove d (e ∷ bag) = let rest = remove d bag in if same_device e d then bag else e ∷ rest

-- The devices that hold the session, as often as they do.
pub Holds : List DeviceName → Refs → Type 0
Holds bag r = (d : DeviceName) → count d r ≡ occurrences d bag

pub count-set_count :
    (d e : DeviceName) (n : ℕ) (r : Refs)
    → count e (set_count d n r) ≡ (if same_device d e then n else count e r)
count-set_count d e n r = ground arith

occurrences-remove :
    (d e : DeviceName) (bag : List DeviceName)
    → occurrences e (remove d bag) ≡ occurrences e bag - (if same_device d e then 1 else 0)
occurrences-remove d e [] = ground arith
occurrences-remove d e (h ∷ bag) = elim (Bool-cases (same_device h d)) [
  | inl q ↦ rw q (ground (arith, q))
  | inr q ↦ rw q (ground (arith, q, occurrences-remove d e bag))
]

pub no_refs-Holds : Holds [] no_refs
unfolding Holds
no_refs-Holds d = ground arith

pub Holds-acquire :
    (bag : List DeviceName) (d : DeviceName) (r : Refs)
    → Holds bag r
    → Holds (d ∷ bag) (set_count d (count d r + 1) r)
unfolding Holds
Holds-acquire bag d r h e = ground (arith, count-set_count d e (count d r + 1) r, h d, h e)

pub Holds-release :
    (bag : List DeviceName) (d : DeviceName) (r : Refs)
    → Holds bag r
    → Holds (remove d bag) (set_count d (count d r - 1) r)
unfolding Holds
Holds-release bag d r h e =
    ground (arith, count-set_count d e (count d r - 1) r, h d, h e, occurrences-remove d e bag)

pub Holds-undone :
    (bag : List DeviceName) (d : DeviceName) (r : Refs)
    → Holds bag r
    → Holds bag
        (set_count d (count d (set_count d (count d r + 1) r) - 1) (set_count d (count d r + 1) r))
unfolding Holds
Holds-undone bag d r h e =
    let up = set_count d (count d r + 1) r in
    ground (
      arith,
      count-set_count d e (count d up - 1) up,
      count-set_count d e (count d r + 1) r,
      count-set_count d d (count d r + 1) r,
      h d,
      h e,
    )

pub if_true : (b : Bool) (A B : Type 0) → b ≡ true → A → if b then A else B
if_true b A B e a = subst (λ (c : Bool). if c then A else B) (sym e) a

pub if_false : (b : Bool) (A B : Type 0) → b ≡ false → B → if b then A else B
if_false b A B e a = subst (λ (c : Bool). if c then A else B) (sym e) a

abbrev pub is_nil : List DeviceName → Bool
is_nil [] = true
is_nil (d ∷ bag) = false

pub is_unused-is_nil : (bag : List DeviceName) (r : Refs) → Holds bag r → is_unused r ≡ is_nil bag
unfolding Holds
is_unused-is_nil [] r h = ground (
  arith,
  h DeviceName.telescope,
  h DeviceName.camera,
  h DeviceName.focuser,
  h DeviceName.filterwheel,
)
is_unused-is_nil (d ∷ bag) r h = ground (arith, h d)
