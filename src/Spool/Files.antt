-- ===== src/Spool/Files.antt =====
-- The files that src/spool.rs works on, and the file system calls that it makes. Any call may fail:
-- the disk says which do, and what a failed write leaves behind.
use owlpost.Prelude.{
  ◌≡◌, ◌≢◌, Bool, false, Option, none, some, List, [], ◌∷◌, if◌then◌else◌, ite, arith,
}
use owlpost.Prelude.Results.{Result, ok, err}
use owlpost.Prelude.Exec.{Exec}
use owlpost.Record.{Dir, Record}
use owlpost.Spool.Names.{FilePath, FilePath-discrete}
use owlpost.Error.{Error, writing, renaming, removing}

-- serde_json, between a record and the bytes of its file; `none` is a file that does not parse.
pub record Codec (B : Type 0) : Type 0 where
  pub to_vec_pretty : Record → B
  pub from_slice : B → Option Record

-- A write succeeds, or fails and leaves the file untouched or holding something else.
pub data WriteFault (B : Type 0) : Type 0 where
  written untouched : WriteFault B
  torn : B → WriteFault B

pub record Faults (B : Type 0) : Type 0 where
  pub write : FilePath → WriteFault B
  pub rename : FilePath → Bool
  pub read : FilePath → Bool
  pub remove : FilePath → Bool
  pub list : Dir → Bool

pub record Disk (B : Type 0) : Type 0 where
  pub files : List (FilePath × B)
  pub faults : Faults B

-- A disk on which no call fails.
abbrev pub no_faults : {B : Type 0} → Faults B
no_faults = record {
  write = λ _. written;
  rename = λ _. false;
  read = λ _. false;
  remove = λ _. false;
  list = λ _. false;
}

module _ {B : Type 0} where
  unfoldable pub find : FilePath → List (FilePath × B) → Option B
  find p [] = none
  find p ((q, b) ∷ fs) = ite (FilePath-discrete q p) (some b) (find p fs)

  unfoldable pub erase : FilePath → List (FilePath × B) → List (FilePath × B)
  erase p [] = []
  erase p ((q, b) ∷ fs) = let rest = erase p fs in ite (FilePath-discrete q p) rest ((q, b) ∷ rest)

  unfoldable pub store : FilePath → B → List (FilePath × B) → List (FilePath × B)
  unfolding erase
  store p b fs = (p, b) ∷ erase p fs

  abbrev pub at : FilePath → Disk B → Option B
  at p d = find p d.files

  abbrev pub wrote : FilePath → B → Disk B → WriteFault B → Result Error Unit × Disk B
  wrote p b d written = (ok tt, record d { files = store p b d.files })
  wrote p b d untouched = (err (writing p), d)
  wrote p b d (torn left) = (err (writing p), record d { files = store p left d.files })

  -- `std::fs::write`
  unfoldable pub write_file : FilePath → B → Exec Error (Disk B) Unit
  unfolding store
  write_file p b d = wrote p b d (d.faults.write p)

  -- `std::fs::remove_file`
  unfoldable pub remove_file : FilePath → Exec Error (Disk B) Unit
  unfolding find erase
  remove_file p d = if d.faults.remove p then (err (removing p), d) else elim (find p d.files) [
    | none ↦ (err (removing p), d)
    | some b ↦ (ok tt, record d { files = erase p d.files })
  ]

  -- `std::fs::rename`
  unfoldable pub rename_file : FilePath → FilePath → Exec Error (Disk B) Unit
  unfolding find store
  rename_file from to d =
      if d.faults.rename to then (err (renaming to), d) else elim (find from d.files) [
        | none ↦ (err (renaming to), d)
        | some b ↦ (ok tt, record d { files = store to b (erase from d.files) })
      ]

  pub find-erase :
      (p q : FilePath) (fs : List (FilePath × B))
      → find q (erase p fs) ≡ ite (FilePath-discrete p q) none (find q fs)
  unfolding find erase
  find-erase p q [] = ground arith
  find-erase p q ((r, b) ∷ fs) = ground (arith, find-erase p q fs)

  pub find-store :
      (p q : FilePath) (b : B) (fs : List (FilePath × B))
      → find q (store p b fs) ≡ ite (FilePath-discrete p q) (some b) (find q fs)
  unfolding find store
  find-store p q b fs = ground (arith, find-erase p q fs)

  pub find-store_ne :
      (p q : FilePath) (b : B) (fs : List (FilePath × B))
      → p ≢ q
      → find q (store p b fs) ≡ find q fs
  find-store_ne p q b fs h = ground (arith, find-store p q b fs)

  pub find-store_self :
      (p : FilePath) (b : B) (fs : List (FilePath × B)) → find p (store p b fs) ≡ some b
  find-store_self p b fs = ground (arith, find-store p p b fs)

  pub find-erase_ne :
      (p q : FilePath) (fs : List (FilePath × B)) → p ≢ q → find q (erase p fs) ≡ find q fs
  find-erase_ne p q fs h = ground (arith, find-erase p q fs)
