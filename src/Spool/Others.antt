-- ===== src/Spool/Others.antt =====
-- What a change of src/spool.rs leaves of the other records.
use owlpost.Prelude.{
  String, ◌≡◌, ◌≢◌, ap, refl, Bool, true, false, if◌then◌else◌, String_discrete, subst, Option,
  none, some, inl, inr, ◌∙◌,
}
use owlpost.Prelude.Results.{Result, ok, err}
use owlpost.Prelude.Exec.{continue, continue-state}
use owlpost.Json.{Value}
use owlpost.Record.{Record, Dir}
use owlpost.Error.{Error, reading}
use owlpost.Spool.Names.{FilePath, record_path, record_file}
use owlpost.Spool.Files.{Codec, Disk}
use owlpost.Spool.{get, put, update, updated, move_to, set_state_with_event}
use owlpost.Spool.Atomic.{put-Replaces, is_ok}
use owlpost.Spool.Readers.{get_cong, get-put_self}
use owlpost.Spool.Moves.{move_to-cases}
use owlpost.Spool.Changes.{get-update_ne, update-found, Readable}

pub dir_apart :
    {dir dir' : Dir} {id id' : String} → dir ≢ dir' → record_path dir id ≢ record_path dir' id'
dir_apart h e = h (ap (λ (p : FilePath). p.dir) e)

id_of_file : {a b : String} → record_file a ≡ record_file b → a ≡ b
id_of_file h = cc

pub id_apart :
    {dir dir' : Dir} {id id' : String} → id ≢ id' → record_path dir id ≢ record_path dir' id'
id_apart h e = h (id_of_file (ap (λ (p : FilePath). p.file) e))

put_or_kept :
    (P : Record → Type 0) (dir : Dir) (id : String) (new old : Record) (worked : Bool)
    (r : Result Error (Option Record))
    → P new
    → P old
    → r ≡ (
        if worked
        then (if false then err (reading (record_path dir id)) else ok (some new))
        else ok (some old))
    → (rec : Record) × (r ≡ ok (some rec)) × P rec
put_or_kept P dir id new old true r hn ho h = (new, h, hn)
put_or_kept P dir id new old false r hn ho h = (old, h, ho)

-- A change that keeps `P` of the record
abbrev pub Keeps : (Record → Type 0) → (Record → Record) → Type 0
Keeps P f = (rec : Record) → P rec → P (f rec)

module _ {B : Type 0} ⦃c : Codec B⦄ where
  pub get-move_ne :
      (from : Dir) (id : String) (to : Dir) (d : Disk B) (dir' : Dir) (id' : String)
      → from ≢ to
      → record_path dir' id' ≢ record_path from id
      → record_path dir' id' ≢ record_path to id
      → get dir' id' (move_to from id to d).1 ≡ get dir' id' d
  get-move_ne from id to d dir' id' apart not_from not_to =
      elim (move_to-cases from id to (dir_apart apart) d) [
        | inl (_, same) ↦ ap (get dir' id') same
        | inr (_, m) ↦
            get_cong dir' id' d _ m.faults (m.others (record_path dir' id') not_from not_to)
      ]

  -- `move_to` and then `set_state_with_event`, as the code closes a record.
  pub get-close_ne :
      (now : String) (from : Dir) (id : String) (to : Dir) (state kind : String)
      (by : Option String) (detail : Option Value) (d : Disk B) (dir' : Dir) (id' : String)
      → from ≢ to
      → record_path dir' id' ≢ record_path from id
      → record_path dir' id' ≢ record_path to id
      → get dir' id'
          (continue
            (move_to from id to d)
            (λ _. set_state_with_event now to id state kind by detail)).1
        ≡ get dir' id' d
  unfolding set_state_with_event
  get-close_ne now from id to state kind by detail d dir' id' apart not_from not_to =
      let moved = get-move_ne from id to d dir' id' apart not_from not_to in
      continue-state (λ s. get dir' id' s ≡ get dir' id' d) (move_to from id to d) _ moved
        (λ _ _. get-update_ne to id _ (move_to from id to d).1 dir' id' not_to ∙ moved)

  pub updated-faults :
      (dir : Dir) (id : String) (f : Record → Record) (d : Disk B)
      (found : Result Error (Option Record))
      → (updated dir id f d found).1.faults ≡ d.faults
  updated-faults dir id f d (err e) = refl
  updated-faults dir id f d (ok none) = refl
  updated-faults dir id f d (ok (some rec)) = (put-Replaces dir id (f rec) d).faults

  pub update-faults :
      (dir : Dir) (id : String) (f : Record → Record) (d : Disk B)
      → (update dir id f d).1.faults ≡ d.faults
  unfolding update
  update-faults dir id f d = updated-faults dir id f d (get dir id d)

  pub move_to-faults :
      (from : Dir) (id : String) (to : Dir) (d : Disk B)
      → from ≢ to
      → (move_to from id to d).1.faults ≡ d.faults
  move_to-faults from id to d apart = elim (move_to-cases from id to (dir_apart apart) d) [
    | inl (_, same) ↦ ap (λ (s : Disk B). s.faults) same
    | inr (_, m) ↦ m.faults
  ]

  pub close-faults :
      (now : String) (from : Dir) (id : String) (to : Dir) (state kind : String)
      (by : Option String) (detail : Option Value) (d : Disk B)
      → from ≢ to
      → (continue
          (move_to from id to d)
          (λ _. set_state_with_event now to id state kind by detail)).1.faults
        ≡ d.faults
  unfolding set_state_with_event
  close-faults now from id to state kind by detail d apart =
      let moved = move_to-faults from id to d apart in
      continue-state (λ (s : Disk B). s.faults ≡ d.faults) (move_to from id to d) _ moved
        (λ _ _. update-faults to id _ (move_to from id to d).1 ∙ moved)

  -- A record that satisfies `P` can be read.
  abbrev pub IsThere : (Record → Type 0) → Dir → String → Disk B → Type 0
  IsThere P dir id d = (rec : Record) × (get dir id d ≡ ok (some rec)) × P rec

  module _ (P : Record → Type 0) (dir : Dir) (id : String) (f : Record → Record) (d : Disk B)
      (laws : (rec : Record) → c.from_slice (c.to_vec_pretty rec) ≡ some rec) (keeps : Keeps P f)
      (readable : Readable d) where
    update-IsThere_self : IsThere P dir id d → IsThere P dir id (update dir id f d).1
    update-IsThere_self (rec, there, holds) =
        put_or_kept P dir id (f rec) rec (is_ok (put dir id (f rec) d).0) _ (keeps rec holds) holds
          (ap (λ (r : Result Error (Unit {0}) × Disk B). get dir id r.1)
              (update-found dir id f d rec there)
            ∙ get-put_self dir id (f rec) d (laws (f rec))
            ∙ ap
                (λ x.
                  if is_ok (put dir id (f rec) d).0
                  then (if x then err (reading (record_path dir id)) else ok (some (f rec)))
                  else get dir id d)
                (readable (record_path dir id))
            ∙ ap (λ x. if is_ok (put dir id (f rec) d).0 then ok (some (f rec)) else x) there)

    -- An update of any record of the directory leaves such a record there.
    pub update-IsThere :
        (other : String) → IsThere P dir id d → IsThere P dir id (update dir other f d).1
    update-IsThere other there = elim (String_discrete id other) [
      | yes same ↦
          subst (λ k. IsThere P dir id (update dir k f d).1) same (update-IsThere_self there)
      | no apart ↦ (there.0, get-update_ne dir other f d dir id (id_apart apart) ∙ there.1, there.2)
    ]
