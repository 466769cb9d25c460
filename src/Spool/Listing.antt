-- ===== src/Spool/Listing.antt =====
-- The listings of src/spool.rs: what `list` returns, and how `list_lenient` differs from it.
use owlpost.Prelude.{
  String, ◌≡◌, subst, refl, Bool, true, Option, none, some, List, [], ◌∷◌, All, All-sort_by,
  Bool-cases, inl, inr,
}
use owlpost.Prelude.Results.{Result, ok, err, >>=-eq-ok, ok-injective}
use owlpost.Record.{Record, Dir}
use owlpost.Error.{Error, listing}
use owlpost.Spool.Files.{Codec, Disk}
use owlpost.Spool.{
  Entry, get, ids_in, collect, collect_lenient, list, list_lenient, add_if, or_skip,
}

module _ {B : Type 0} ⦃c : Codec B⦄ (dir : Dir) (filter : Record → Bool) (d : Disk B) where
  -- An entry of a listing: its record is in the directory and passes the filter.
  abbrev pub IsListed : Entry → Type 0
  IsListed e = (get dir e.0 d ≡ ok (some e.1)) × (filter e.1 ≡ true)

  add_if-IsListed :
      (id : String) (found : Option Record) (rest : List Entry)
      → get dir id d ≡ ok found
      → All IsListed rest
      → All IsListed (add_if filter id found rest)
  add_if-IsListed id none rest e h = h
  add_if-IsListed id (some rec) rest e h = elim (Bool-cases (filter rec)) [
    | inl passes ↦ rw passes ((e, passes), h)
    | inr fails ↦ rw fails h
  ]

  collect-IsListed :
      (ids : List String) (l : List Entry) → collect dir filter d ids ≡ ok l → All IsListed l
  unfolding collect
  collect-IsListed [] l e = subst (All IsListed) (ok-injective e) tt
  collect-IsListed (id ∷ ids) l e =
      let (found, got, e') = >>=-eq-ok (get dir id d) _ e in
      let (rest, collected, e'') = >>=-eq-ok (collect dir filter d ids) _ e' in
      subst (All IsListed) (ok-injective e'')
        (add_if-IsListed id found rest got (collect-IsListed ids rest collected))

  -- Every entry of a listing is a record of the directory that passes the filter.
  pub list-IsListed : (l : List Entry) → list dir filter d ≡ ok l → All IsListed l
  unfolding list
  list-IsListed l e = elim (Bool-cases (d.faults.list dir)) [
    | inl fails ↦
        let bad : ◌≡◌ {A = Result Error (List Entry)} (err (listing dir)) (ok l) = rw fails at e in
        cc
    | inr works ↦
        let (l', collected, same) =
          >>=-eq-ok (collect dir filter d (ids_in dir d.files)) _ (rw works at e) in
        subst (All IsListed) (ok-injective same)
          (All-sort_by IsListed (λ x. x.0) l' (collect-IsListed (ids_in dir d.files) l' collected))
  ]

module _ {B : Type 0} ⦃c : Codec B⦄ (dir : Dir) (d : Disk B) where
  collect_lenient-collect :
      (ids : List String) (l : List Entry)
      → collect dir (λ _. true) d ids ≡ ok l
      → collect_lenient dir d ids ≡ l
  unfolding collect collect_lenient
  collect_lenient-collect [] l e = ok-injective e
  collect_lenient-collect (id ∷ ids) l e =
      let (found, got, e') = >>=-eq-ok (get dir id d) _ e in
      let (rest, collected, e'') = >>=-eq-ok (collect dir (λ _. true) d ids) _ e' in
      rw (got, collect_lenient-collect ids rest collected) (ok-injective e'')

  -- Where `list` finds no record that it cannot read, `list_lenient` returns the same records.
  pub list_lenient-list :
      (l : List Entry) → list dir (λ _. true) d ≡ ok l → list_lenient dir d ≡ ok l
  unfolding list list_lenient
  list_lenient-list l e = elim (Bool-cases (d.faults.list dir)) [
    | inl fails ↦
        let bad : ◌≡◌ {A = Result Error (List Entry)} (err (listing dir)) (ok l) = rw fails at e in
        cc
    | inr works ↦
        let (l', collected, same) =
          >>=-eq-ok (collect dir (λ _. true) d (ids_in dir d.files)) _ (rw works at e) in
        rw (works, collect_lenient-collect (ids_in dir d.files) l' collected) same
  ]

module _ {B : Type 0} ⦃c : Codec B⦄ (dir : Dir) (d : Disk B) where
  -- An entry is a record of the directory.
  abbrev pub IsStored : Entry → Type 0
  IsStored entry = get dir entry.0 d ≡ ok (some entry.1)

  add_found :
      (id : String) (r : Result Error (Option Record)) (rest : List Entry)
      → get dir id d ≡ r
      → All IsStored rest
      → All IsStored (add_if (λ _. true) id (or_skip r) rest)
  add_found id (ok none) rest e h = h
  add_found id (ok (some rec)) rest e h = (e, h)
  add_found id (err x) rest e h = h

  collect_lenient-IsStored : (ids : List String) → All IsStored (collect_lenient dir d ids)
  unfolding collect_lenient
  collect_lenient-IsStored [] = tt
  collect_lenient-IsStored (id ∷ ids) =
      add_found id (get dir id d) (collect_lenient dir d ids) refl (collect_lenient-IsStored ids)

  pub list_lenient-IsStored : (l : List Entry) → list_lenient dir d ≡ ok l → All IsStored l
  unfolding list_lenient
  list_lenient-IsStored l e = elim (Bool-cases (d.faults.list dir)) [
    | inl fails ↦
        let bad : ◌≡◌ {A = Result Error (List Entry)} (err (listing dir)) (ok l) = rw fails at e in
        cc
    | inr works ↦
        subst (All IsStored) (ok-injective (rw works at e))
          (All-sort_by IsStored (λ x. x.0) _ (collect_lenient-IsStored (ids_in dir d.files)))
  ]
