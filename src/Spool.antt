-- ===== src/Spool.antt =====
-- src/spool.rs: the spool, one JSON record per id in five directories.
pub mod Names
pub mod Files
pub mod Atomic
pub mod Readers
pub mod Listing
pub mod Moves
pub mod Changes
pub mod Spec
pub mod Others
use mathlib.Core.List.{reverse}
use owlpost.Prelude.{
  ℕ, String, ◌≡◌, refl, Bool, true, false, not, Option, none, some, List, [], ◌∷◌, ◌++◌,
  if◌then◌else◌, ite, length, str_le, sort_by,
}
use owlpost.Prelude.Results
use owlpost.Prelude.Results.{Result, ok, err}
use owlpost.Prelude.Exec.{Exec, ◌>>=◌, ◌>>◌, pure, raise, lift, continue}
use owlpost.Json.{Value}
use owlpost.Record.{Record, Dir, Dir-discrete, cache}
use owlpost.Events.{push}
use owlpost.Error.{Error, reading, parsing, listing, moving, no_record}
use owlpost.Spool.Names.{FilePath, FileName, record_path, temp_path}
use owlpost.Spool.Files.{Codec, Disk, find, write_file, remove_file, rename_file}

abbrev pub Entry : Type 0
Entry = String × Record

-- The stem of a file name with the extension `json`.
abbrev stem : FileName → Option String
stem (FileName.record_file id) = some id
stem _ = none

-- The ids of the records that `read_dir` finds, in its order.
pub ids_in {ℓ} : {B : Type ℓ} → Dir → List (FilePath × B) → List String
ids_in dir [] = []
ids_in dir ((p, _) ∷ fs) =
    let rest = ids_in dir fs in
    ite (Dir-discrete p.dir dir) (elim (stem p.file) [ none ↦ rest | some id ↦ id ∷ rest ]) rest

abbrev pub parsed : FilePath → Option Record → Result Error (Option Record)
parsed p none = err (parsing p)
parsed p (some rec) = ok (some rec)

abbrev add_if : (Record → Bool) → String → Option Record → List Entry → List Entry
add_if filter id none rest = rest
add_if filter id (some rec) rest = if filter rec then (id, rec) ∷ rest else rest

abbrev sorted : Result Error (List Entry) → Result Error (List Entry)
sorted r = Results.◌>>=◌ r λ l. ok (sort_by (λ e. e.0) l)

abbrev or_skip : Result Error (Option Record) → Option Record
or_skip (ok found) = found
or_skip (err e) = none

module _ {B : Type 0} where
  abbrev pub cleaned_up :
      FilePath → Result Error (Unit {0}) × Disk B → Result Error (Unit {0}) × Disk B
  cleaned_up tmp (ok _, d) = (ok tt, d)
  cleaned_up tmp (err e, d) = (err e, (remove_file tmp d).1)

  abbrev pub moved :
      FilePath → FilePath → Result Error (Unit {0}) × Disk B → Result Error (Unit {0}) × Disk B
  moved from to (ok _, d) = (ok tt, d)
  moved from to (err e, d) = (err (moving from to), d)

  unfoldable pub move_to : Dir → String → Dir → Exec Error (Disk B) Unit
  unfolding rename_file
  move_to from id to d =
      moved (record_path from id) (record_path to id)
        (rename_file (record_path from id) (record_path to id) d)

module _ {B : Type 0} ⦃c : Codec B⦄ where
  abbrev pub read_record : FilePath → Option B → Result Error (Option Record)
  read_record p none = ok none
  read_record p (some b) = parsed p (c.from_slice b)

  -- `get`: a missing file is no error, one that does not parse is.
  unfoldable pub get : Dir → String → Disk B → Result Error (Option Record)
  unfolding find
  get dir id d =
      let p = record_path dir id in
      if d.faults.read p then err (reading p) else read_record p (find p d.files)

  -- `put`: the record is written beside the file and renamed over it; if that fails, the
  -- temporary file is taken away.
  unfoldable pub put : Dir → String → Record → Exec Error (Disk B) Unit
  unfolding write_file rename_file remove_file
  put dir id rec = do
    write_file (temp_path dir id) (c.to_vec_pretty rec)
    λ d. cleaned_up (temp_path dir id) (rename_file (temp_path dir id) (record_path dir id) d)

  -- The loop of `list`: the first record that cannot be read ends it.
  pub collect : Dir → (Record → Bool) → Disk B → List String → Result Error (List Entry)
  collect dir filter d [] = ok []
  collect dir filter d (id ∷ ids) =
      Results.◌>>=◌ (get dir id d)
        λ found. Results.◌>>=◌ (collect dir filter d ids) λ rest. ok (add_if filter id found rest)

  unfoldable pub list : Dir → (Record → Bool) → Disk B → Result Error (List Entry)
  unfolding sort_by ids_in collect
  list dir filter d =
      if d.faults.list dir
      then err (listing dir)
      else sorted (collect dir filter d (ids_in dir d.files))

  -- The loop of `list_lenient`: a record that cannot be read is skipped.
  pub collect_lenient : Dir → Disk B → List String → List Entry
  collect_lenient dir d [] = []
  collect_lenient dir d (id ∷ ids) =
      add_if (λ _. true) id (or_skip (get dir id d)) (collect_lenient dir d ids)

  unfoldable pub list_lenient : Dir → Disk B → Result Error (List Entry)
  unfolding sort_by ids_in collect_lenient
  list_lenient dir d =
      if d.faults.list dir
      then err (listing dir)
      else ok (sort_by (λ e. e.0) (collect_lenient dir d (ids_in dir d.files)))

  abbrev pub updated :
      Dir
      → String
      → (Record → Record)
      → Disk B
      → Result Error (Option Record)
      → Result Error (Unit {0}) × Disk B
  updated dir id f d (err e) = (err e, d)
  updated dir id f d (ok none) = (err (no_record dir id), d)
  updated dir id f d (ok (some rec)) = put dir id (f rec) d

  -- `update`: a missing record is an error.
  unfoldable pub update : Dir → String → (Record → Record) → Exec Error (Disk B) Unit
  unfolding get put
  update dir id f d = updated dir id f d (get dir id d)

  unfoldable pub set_state : Dir → String → String → Exec Error (Disk B) Unit
  unfolding update
  set_state dir id state = update dir id (λ rec. record rec { state = state })

  unfoldable pub set_state_with_event :
      (now : String)
      → Dir
      → String
      → (state kind : String) → Option String
      → Option Value
      → Exec Error (Disk B) Unit
  unfolding update
  set_state_with_event now dir id state kind by detail =
      update dir id (λ rec. push now kind by detail (record rec { state = state }))

  unfoldable pub push_event :
      (now : String)
      → Dir
      → String
      → (kind : String) → Option String
      → Option Value
      → Exec Error (Disk B) Unit
  unfolding update
  push_event now dir id kind by detail = update dir id (push now kind by detail)

  unfoldable pub mark_seen : Dir → String → Exec Error (Disk B) Unit
  unfolding update
  mark_seen dir id = update dir id (λ rec. record rec { seen = true })

  unfoldable pub count_unseen : Dir → Disk B → Result Error ℕ
  unfolding list
  count_unseen dir d = Results.◌>>=◌ (list dir (λ rec. not rec.seen) d) λ l. ok (length l)

  unfoldable pub cache_get : String → Disk B → Result Error (Option Record)
  unfolding get
  cache_get hash = get cache hash

  unfoldable pub cache_put : String → Record → Exec Error (Disk B) Unit
  unfolding put
  cache_put hash rec = put cache hash rec
