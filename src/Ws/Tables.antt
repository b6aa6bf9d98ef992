-- ===== src/Ws/Tables.antt =====
-- The two tables of `DwarfWsClient`, src/dwarf_alpaca/dwarf/ws_client.py: an alias always leads to a
-- pending request that lists it among its alternate responses.
use dwarf_alp.Prelude.{
  ◌≡◌, refl, Bool, true, false, ◌&&◌, Option, none, some, [], ◌∷◌, arith, if◌then◌else◌, Bool-cases,
  inl, inr,
}
use dwarf_alp.Ws.Dict.{
  Key, key_eq, key_eq_iff, Dict, lookup, insert, erase, contains, lookup-insert, lookup-erase,
  contains-cons,
}
use dwarf_alp.Ws.Client.{PendingRequest, drop_alias, drop_aliases, add_aliases}

abbrev points : Key → Option Key → Bool
points key none = false
points key (some target) = key_eq target key

lookup-drop_alias :
    (a key alias_key : Key) (aliases : Dict Key)
    → lookup a (drop_alias key alias_key aliases)
      ≡ (if key_eq alias_key a && points key (lookup a aliases) then none else lookup a aliases)
unfolding drop_alias
lookup-drop_alias a key alias_key aliases =
    ground (arith, key_eq_iff alias_key a, lookup-erase alias_key a aliases)

module _ {C : Type 0} where
  lookup-drop_aliases :
      (a key : Key) (alternates : Dict C) (aliases : Dict Key)
      → lookup a (drop_aliases key alternates aliases) ≡ (
          if contains a alternates && points key (lookup a aliases) then none else lookup a aliases)
  unfolding drop_aliases
  lookup-drop_aliases a key [] aliases = unfold contains in refl
  lookup-drop_aliases a key ((alias_key, cls) ∷ alternates) aliases = ground (
    arith,
    lookup-drop_aliases a key alternates (drop_alias key alias_key aliases),
    lookup-drop_alias a key alias_key aliases,
    contains-cons a alias_key cls alternates,
  )

  lookup-add_aliases :
      (a key : Key) (alternates : Dict C) (aliases : Dict Key)
      → lookup a (add_aliases key alternates aliases)
        ≡ (if contains a alternates then some key else lookup a aliases)
  unfolding add_aliases
  lookup-add_aliases a key [] aliases = unfold contains in refl
  lookup-add_aliases a key ((alias_key, cls) ∷ alternates) aliases = ground (
    arith,
    lookup-add_aliases a key alternates (insert alias_key key aliases),
    lookup-insert alias_key a key aliases,
    contains-cons a alias_key cls alternates,
  )

-- An alias leads to a pending request that lists it.
pub record Leads {C : Type 0} (pending : Dict (PendingRequest C)) (a k : Key) : Type 0 where
  pub request : PendingRequest C
  pub is_pending : lookup k pending ≡ some request
  pub lists : contains a request.alternate_responses ≡ true

pub record IsLinked {C : Type 0} (pending : Dict (PendingRequest C)) (aliases : Dict Key)
    : Type 0 where
  pub leads : (a k : Key) → lookup a aliases ≡ some k → Leads pending a k

module _ {C : Type 0} where
  pub pop-IsLinked :
      (key : Key) (p : PendingRequest C) (pending : Dict (PendingRequest C)) (aliases : Dict Key)
      → lookup key pending ≡ some p
      → IsLinked pending aliases
      → IsLinked (erase key pending) (drop_aliases key p.alternate_responses aliases)
  pop-IsLinked key p pending aliases e linked = record { leads = go }
    where
      go :
          (a k : Key)
          → lookup a (drop_aliases key p.alternate_responses aliases) ≡ some k
          → Leads (erase key pending) a k
      go a k h =
          let was : lookup a aliases ≡ some k =
            ground (arith, lookup-drop_aliases a key p.alternate_responses aliases) in
          let l = linked.leads a k was in
          let other : key_eq key k ≡ false = ground (
            arith,
            lookup-drop_aliases a key p.alternate_responses aliases,
            key_eq_iff k key,
            key_eq_iff key k,
            l.is_pending,
            l.lists,
          ) in
          record {
            request = l.request;
            is_pending = ground (arith, lookup-erase key k pending, l.is_pending);
            lists = l.lists;
          }

  pub erase-IsLinked :
      (key : Key) (pending : Dict (PendingRequest C)) (aliases : Dict Key)
      → IsLinked pending aliases
      → IsLinked pending (erase key aliases)
  erase-IsLinked key pending aliases linked = record {
    leads = λ a k h. linked.leads a k (ground (arith, lookup-erase key a aliases));
  }

  pub register-IsLinked :
      (key : Key) (p : PendingRequest C) (pending : Dict (PendingRequest C)) (aliases : Dict Key)
      → lookup key pending ≡ none
      → IsLinked pending aliases
      → IsLinked (insert key p pending) (add_aliases key p.alternate_responses aliases)
  register-IsLinked key p pending aliases e linked = record { leads = go }
    where
      go :
          (a k : Key)
          → lookup a (add_aliases key p.alternate_responses aliases) ≡ some k
          → Leads (insert key p pending) a k
      go a k h = elim (Bool-cases (contains a p.alternate_responses)) [
        | inl mine ↦
            let at : key ≡ k =
              ground (arith, lookup-add_aliases a key p.alternate_responses aliases) in
            record {
              request = p;
              is_pending = ground (arith, lookup-insert key k p pending, key_eq_iff key k);
              lists = mine;
            }
        | inr old ↦
            let l =
              linked.leads a k
                (ground (arith, lookup-add_aliases a key p.alternate_responses aliases)) in
            record {
              request = l.request;
              is_pending =
                  ground (arith, lookup-insert key k p pending, key_eq_iff key k, l.is_pending);
              lists = l.lists;
            }
      ]
