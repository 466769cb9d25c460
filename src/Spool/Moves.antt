-- ===== src/Spool/Moves.antt =====
-- `move_to` of src/spool.rs: the record is in one directory or in the other.
use owlpost.Prelude.{String, ◌≡◌, ◌≢◌, ◌⊎◌, inl, inr, refl, sym, ◌∙◌, true, false, none, arith}
use owlpost.Prelude.Results.{Result, ok, err}
use owlpost.Record.{Dir}
use owlpost.Error.{Error}
use owlpost.Spool.Names.{FilePath, record_path}
use owlpost.Spool.Files.{
  Disk, find, erase, at, rename_file, find-store_ne, find-store_self, find-erase, find-erase_ne,
}
use owlpost.Spool.{move_to, moved}
use owlpost.Spool.Atomic.{is_ok, rename_file-cases}

-- A move has failed and changed nothing, or it has taken the file from one directory to the other.
pub record Moved {B : Type 0} (from to : FilePath) (d d' : Disk B) : Type 0 where
  pub gone : at from d' ≡ none
  pub arrived : at to d' ≡ at from d
  pub others : (q : FilePath) → q ≢ from → q ≢ to → at q d' ≡ at q d
  pub faults : d'.faults ≡ d.faults

moved-failed :
    {B : Type 0} (from to : FilePath) {d : Disk B} (r : Result Error (Unit {0}) × Disk B)
    → is_ok r.0 ≡ false
    → r.1 ≡ d
    → (is_ok (moved from to r).0 ≡ false) × ((moved from to r).1 ≡ d)
moved-failed from to (ok u, d') failed same = cc
moved-failed from to (err e, d') failed same = (refl, same)

module _ {B : Type 0} (from : Dir) (id : String) (to : Dir)
    (apart : record_path from id ≢ record_path to id) (d : Disk B) where
  flip_apart : {A : Type 0} {x y : A} → x ≢ y → y ≢ x
  flip_apart h e = h (sym e)

  erased : (p : FilePath) → find p (erase p d.files) ≡ none
  erased p = ground (arith, find-erase p p d.files)

  pub move_to-cases :
      ((is_ok (move_to from id to d).0 ≡ false) × ((move_to from id to d).1 ≡ d))
      ⊎ ((is_ok (move_to from id to d).0 ≡ true)
          × Moved (record_path from id) (record_path to id) d (move_to from id to d).1)
  unfolding move_to
  move_to-cases =
      let source = record_path from id in
      let target = record_path to id in
      elim (rename_file-cases source target d) [
        | inl (failed, same) ↦
            inl (moved-failed source target (rename_file source target d) failed same)
        | inr (b, there, done) ↦ rw done (
            inr (
              refl,
              record {
                gone =
                    find-store_ne target source b (erase source d.files) (flip_apart apart)
                    ∙ erased source;
                arrived = find-store_self target b (erase source d.files) ∙ sym there;
                others = λ q h k.
                    find-store_ne target q b (erase source d.files) (flip_apart k)
                    ∙ find-erase_ne source q d.files (flip_apart h);
                faults = refl;
              },
            ))
      ]
