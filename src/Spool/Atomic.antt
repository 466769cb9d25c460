-- ===== src/Spool/Atomic.antt =====
-- `put`, `move_to` and the updates of src/spool.rs change one record or none, whatever fails.
use owlpost.Prelude.{
  String, ◌≡◌, ◌≢◌, ◌⊎◌, inl, inr, Bool-cases, Option-cases, ap, sym, ◌∙◌, refl, Bool, true, false,
  some, arith, if◌then◌else◌,
}
use owlpost.Prelude.Results.{Result, ok, err}
use owlpost.Prelude.Exec.{continue}
use owlpost.Record.{Record, Dir}
use owlpost.Error.{Error}
use owlpost.Spool.Names.{FilePath, record_path, temp_path}
use owlpost.Spool.Files.{
  Codec, Disk, WriteFault, written, untouched, torn, find, store, erase, at, write_file,
  rename_file, remove_file, find-store_ne, find-store_self, find-erase_ne, wrote,
}
use owlpost.Spool.{put, cleaned_up}

abbrev pub is_ok : {E A : Type 0} → Result E A → Bool
is_ok (ok a) = true
is_ok (err e) = false

module _ {B : Type 0} where
  pub write_file-at :
      (p q : FilePath) (b : B) (d : Disk B) → p ≢ q → at q (write_file p b d).1 ≡ at q d
  unfolding write_file
  write_file-at p q b d h = elim (d.faults.write p) as (λ f. at q (wrote p b d f).1 ≡ at q d) [
    | written ↦ find-store_ne p q b d.files h
    | untouched ↦ refl
    | torn left ↦ find-store_ne p q left d.files h
  ]

  pub write_file-faults :
      (p : FilePath) (b : B) (d : Disk B) → (write_file p b d).1.faults ≡ d.faults
  unfolding write_file
  write_file-faults p b d = ground arith

  pub remove_file-at : (p q : FilePath) (d : Disk B) → p ≢ q → at q (remove_file p d).1 ≡ at q d
  unfolding remove_file
  remove_file-at p q d h = ground (arith, find-erase_ne p q d.files h)

  -- A renaming does nothing, or the new name has what the old one had.
  pub rename_file-cases :
      (from to : FilePath) (d : Disk B)
      → ((is_ok (rename_file from to d).0 ≡ false) × ((rename_file from to d).1 ≡ d))
        ⊎ ((b : B) × (find from d.files ≡ some b)
            × (rename_file from to d
                ≡ (ok tt, record d { files = store to b (erase from d.files) })))
  unfolding rename_file
  rename_file-cases from to d = elim (Bool-cases (d.faults.rename to)) [
    | inl fails ↦ inl (rw fails, rw fails)
    | inr works ↦ elim (Option-cases (find from d.files)) [
      | inl missing ↦ inl (rw (works, missing, rename_file), rw (works, missing, rename_file))
      | inr (b, there) ↦ inr (b, there, rw (works, there, rename_file))
    ]
  ]

-- What an operation on the record at `p`, by way of the temporary file `tmp`, leaves: the new bytes
-- at `p` if it succeeds, what was there if it fails, and every other file as it was.
pub record Replaces {B : Type 0} (tmp p : FilePath) (b : B) (d : Disk B)
    (r : Result Error (Unit {0}) × Disk B) : Type 0 where
  pub others : (q : FilePath) → q ≢ tmp → q ≢ p → at q r.1 ≡ at q d
  pub target : at p r.1 ≡ (if is_ok r.0 then some b else at p d)
  pub faults : r.1.faults ≡ d.faults

pub temp-ne-record : (dir dir' : Dir) (id id' : String) → temp_path dir id ≢ record_path dir' id'
temp-ne-record dir dir' id id' e = cc (ap (λ (p : FilePath). p.file) e)

flip_ne {ℓ} : {A : Type ℓ} {x y : A} → x ≢ y → y ≢ x
flip_ne h e = h (sym e)

pub remove_file-faults :
    {B : Type 0} (p : FilePath) (d : Disk B) → (remove_file p d).1.faults ≡ d.faults
unfolding remove_file
remove_file-faults p d = ground arith

module _ {B : Type 0} (tmp p : FilePath) (apart : tmp ≢ p) (b : B) (d d' : Disk B)
    (same : (q : FilePath) → q ≢ tmp → at q d' ≡ at q d) (faulty : d'.faults ≡ d.faults) where
  clean_up_failed :
      (r : Result Error (Unit {0}) × Disk B)
      → is_ok r.0 ≡ false
      → r.1 ≡ d'
      → Replaces tmp p b d (cleaned_up tmp r)
  clean_up_failed (ok _, d'') failed kept = cc
  clean_up_failed (err e, d'') failed kept = record {
    others = λ q h k. remove_file-at tmp q d'' (flip_ne h) ∙ ap (at q) kept ∙ same q h;
    target = remove_file-at tmp p d'' apart ∙ ap (at p) kept ∙ same p (flip_ne apart);
    faults = remove_file-faults tmp d'' ∙ ap (λ (x : Disk B). x.faults) kept ∙ faulty;
  }

  -- The second half of `put`: the temporary file holds the record.
  finish_put : at tmp d' ≡ some b → Replaces tmp p b d (cleaned_up tmp (rename_file tmp p d'))
  finish_put new = elim (rename_file-cases tmp p d') [
    | inl (failed, kept) ↦ clean_up_failed (rename_file tmp p d') failed kept
    | inr (b', there, done) ↦ rw done (record {
      others = λ q h k.
          find-store_ne p q b' (erase tmp d'.files) (flip_ne k)
          ∙ find-erase_ne tmp q d'.files (flip_ne h)
          ∙ same q h;
      target = find-store_self p b' (erase tmp d'.files) ∙ sym there ∙ new;
      faults = faulty;
    })
  ]

module _ {B : Type 0} ⦃c : Codec B⦄ (dir : Dir) (id : String) (rec : Record) (d : Disk B) where
  abbrev tmp : FilePath
  tmp = temp_path dir id

  abbrev target : FilePath
  target = record_path dir id

  -- Where `put` stands when it has written, or failed to write, its temporary file.
  pub write_temp-at :
      (q : FilePath) → q ≢ tmp → at q (write_file tmp (c.to_vec_pretty rec) d).1 ≡ at q d
  write_temp-at q h = write_file-at tmp q (c.to_vec_pretty rec) d (flip_ne h)

  abbrev rest_of_put : Result Error (Unit {0}) × Disk B → Result Error (Unit {0}) × Disk B
  rest_of_put r = continue r (λ _ d'. cleaned_up tmp (rename_file tmp target d'))

  put-of_fault :
      (f : WriteFault B)
      → Replaces tmp target
          (c.to_vec_pretty rec)
          d
          (rest_of_put (wrote tmp (c.to_vec_pretty rec) d f))
  put-of_fault written =
      finish_put tmp target (temp-ne-record dir dir id id) (c.to_vec_pretty rec) d
        (record d { files = store tmp (c.to_vec_pretty rec) d.files })
        (λ q h. find-store_ne tmp q (c.to_vec_pretty rec) d.files (flip_ne h)) refl
        (find-store_self tmp (c.to_vec_pretty rec) d.files)
  put-of_fault untouched = record { others = λ q h k. refl; target = refl; faults = refl }
  put-of_fault (torn left) = record {
    others = λ q h k. find-store_ne tmp q left d.files (flip_ne h);
    target = find-store_ne tmp target left d.files (temp-ne-record dir dir id id);
    faults = refl;
  }

  pub put-Replaces : Replaces tmp target (c.to_vec_pretty rec) d (put dir id rec d)
  unfolding put write_file
  put-Replaces = put-of_fault (d.faults.write tmp)
