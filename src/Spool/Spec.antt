-- ===== src/Spool/Spec.antt =====
-- What src/spool.rs promises where the disk does not fail: a map from directories and ids to records,
-- and its operations.
use owlpost.Prelude.{String, ◌≡◌, refl, sym, ap, ◌∙◌, true, false, Option, none, some, ite}
use owlpost.Prelude.Results.{ok, err}
use owlpost.Prelude.Exec.{Exec}
use owlpost.Record.{Record, Dir}
use owlpost.Error.{Error, renaming}
use owlpost.Spool.{put, update, move_to, updated, moved, read_record, parsed}
use owlpost.Spool.Names.{FilePath, FilePath-discrete, record_path, temp_path}
use owlpost.Spool.Files.{
  Codec, Disk, written, find, at, store, erase, write_file, rename_file, find-store, find-erase,
  find-store_self,
}
use owlpost.Spool.Atomic.{is_ok, put-Replaces, temp-ne-record}
use owlpost.Spool.Readers.{get-at, reading_of}

-- No file, a file that does not parse, or a record.
abbrev pub View : Type 0
View = Dir → String → Option (Option Record)

abbrev pub write : View → Dir → String → Option (Option Record) → View
write v dir id x dir' id' =
    ite (FilePath-discrete (record_path dir id) (record_path dir' id')) x (v dir' id')

pub data Op : Type 0 where
  putting : Dir → String → Record → Op
  updating : Dir → String → (Record → Record) → Op
  moving_to : Dir → String → Dir → Op

abbrev update_spec : View → Dir → String → (Record → Record) → Option (Option Record) → View
update_spec v dir id f (some (some rec)) = write v dir id (some (some (f rec)))
update_spec v dir id f _ = v

abbrev move_spec : View → Dir → String → Dir → Option (Option Record) → View
move_spec v from id to none = v
move_spec v from id to (some x) = write (write v from id none) to id (some x)

-- The operations on the map.
unfoldable pub spec : Op → View → View
spec (putting dir id rec) v = write v dir id (some (some rec))
spec (updating dir id f) v = update_spec v dir id f (v dir id)
spec (moving_to from id to) v = move_spec v from id to (v from id)

module _ {B : Type 0} ⦃c : Codec B⦄ where
  abbrev parsed_file : Option B → Option (Option Record)
  parsed_file none = none
  parsed_file (some b) = some (c.from_slice b)

  abbrev pub view : Disk B → View
  view d dir id = parsed_file (at (record_path dir id) d)

  -- The operations on the disk.
  unfoldable pub run : Op → Exec Error (Disk B) Unit
  unfolding put update move_to
  run (putting dir id rec) = put dir id rec
  run (updating dir id f) = update dir id f
  run (moving_to from id to) = move_to from id to

  -- No call on the disk fails.
  pub record Sound (d : Disk B) : Type 0 where
    pub writes : (p : FilePath) → d.faults.write p ≡ written
    pub renames : (p : FilePath) → d.faults.rename p ≡ false
    pub reads : (p : FilePath) → d.faults.read p ≡ false

  put-works :
      (dir : Dir) (id : String) (rec : Record) (d : Disk B)
      → Sound d
      → is_ok (put dir id rec d).0 ≡ true
  unfolding put write_file rename_file
  put-works dir id rec d sound =
      rw
        (
          sound.writes (temp_path dir id),
          sound.renames (record_path dir id),
          find-store_self (temp_path dir id) (c.to_vec_pretty rec) d.files,
        )
        refl

  parsed_file-ite :
      {P : Type 0} (t : Dec P) (x y : Option B)
      → parsed_file (ite t x y) ≡ ite t (parsed_file x) (parsed_file y)
  parsed_file-ite (yes e) x y = refl
  parsed_file-ite (no e) x y = refl

  put-at_self :
      (dir : Dir) (id : String) (rec : Record) (d : Disk B)
      → Sound d
      → at (record_path dir id) (put dir id rec d).1 ≡ some (c.to_vec_pretty rec)
  put-at_self dir id rec d sound =
      (put-Replaces dir id rec d).target ∙ (rw (put-works dir id rec d sound) refl)

  put-view :
      (dir : Dir) (id : String) (rec : Record) (d : Disk B)
      → Sound d
      → c.from_slice (c.to_vec_pretty rec) ≡ some rec
      → (dir' : Dir) (id' : String)
      → view (put dir id rec d).1 dir' id' ≡ write (view d) dir id (some (some rec)) dir' id'
  put-view dir id rec d sound reads dir' id' =
      let p = record_path dir id in
      let q = record_path dir' id' in
      let replaced = put-Replaces dir id rec d in
      elim (FilePath-discrete p q)
        as (λ t. view (put dir id rec d).1 dir' id' ≡ ite t (some (some rec)) (view d dir' id')) [
          | yes e ↦
              ap (λ f. parsed_file (at f (put dir id rec d).1)) (sym e)
              ∙ ap parsed_file (put-at_self dir id rec d sound)
              ∙ ap (λ x. some x) reads
          | no other ↦
              ap parsed_file (
                replaced.others q (λ e. temp-ne-record dir dir' id id' (sym e))
                  (λ e. other (sym e)))
        ]

  updated-view :
      (dir : Dir) (id : String) (f : Record → Record) (d : Disk B)
      → Sound d
      → ((rec : Record) → c.from_slice (c.to_vec_pretty rec) ≡ some rec)
      → (dir' : Dir) (id' : String) (bytes : Option B)
      → view (updated dir id f d (read_record (record_path dir id) bytes)).1 dir' id'
        ≡ update_spec (view d) dir id f (parsed_file bytes) dir' id'
  updated-view dir id f d sound reads dir' id' none = refl
  updated-view dir id f d sound reads dir' id' (some b) =
      elim (c.from_slice b)
        as (λ x.
          view (updated dir id f d (parsed (record_path dir id) x)).1 dir' id'
          ≡ update_spec (view d) dir id f (some x) dir' id') [
            | none ↦ refl
            | some rec ↦ put-view dir id (f rec) d sound (reads (f rec)) dir' id'
          ]

  update-view :
      (dir : Dir) (id : String) (f : Record → Record) (d : Disk B)
      → Sound d
      → ((rec : Record) → c.from_slice (c.to_vec_pretty rec) ≡ some rec)
      → (dir' : Dir) (id' : String)
      → view (update dir id f d).1 dir' id' ≡ update_spec (view d) dir id f (view d dir id) dir' id'
  unfolding update
  update-view dir id f d sound reads dir' id' =
      let p = record_path dir id in
      ap (λ r. view (updated dir id f d r).1 dir' id')
        (get-at dir id d ∙ ap (λ x. reading_of p x (at p d)) (sound.reads p))
      ∙ updated-view dir id f d sound reads dir' id' (at p d)

  move-view :
      (from : Dir) (id : String) (to : Dir) (d : Disk B)
      → Sound d
      → (dir' : Dir) (id' : String)
      → view (move_to from id to d).1 dir' id'
        ≡ move_spec (view d) from id to (view d from id) dir' id'
  unfolding move_to rename_file
  move-view from id to d sound dir' id' =
      let p = record_path from id in
      let r = record_path to id in
      let q = record_path dir' id' in
      rw (sound.renames r)
        (elim (find p d.files)
          as (λ x.
            view
              (moved p r (elim x [
                | none ↦ (err (renaming r), d)
                | some b ↦ (ok tt, record d { files = store r b (erase p d.files) })
              ])).1
              dir' id'
            ≡ move_spec (view d) from id to (parsed_file x) dir' id') [
              | none ↦ refl
              | some b ↦
                  ap parsed_file (find-store r q b (erase p d.files))
                  ∙ parsed_file-ite (FilePath-discrete r q) (some b) (find q (erase p d.files))
                  ∙ ap (ite (FilePath-discrete r q) (parsed_file (some b))) (
                      ap parsed_file (find-erase p q d.files)
                      ∙ parsed_file-ite (FilePath-discrete p q) none (find q d.files))
            ])

  -- Where no call on the disk fails and a record's file parses back to the record, `put`, `update`
  -- and `move_to` do to every directory and id what the specification on the map of records does,
  -- whether the record that they name is there, missing or does not parse.
  pub run-refines :
      (op : Op) (d : Disk B)
      → Sound d
      → ((rec : Record) → c.from_slice (c.to_vec_pretty rec) ≡ some rec)
      → (dir' : Dir) (id' : String) → view (run op d).1 dir' id' ≡ spec op (view d) dir' id'
  unfolding run spec
  run-refines (putting dir id rec) d sound reads = put-view dir id rec d sound (reads rec)
  run-refines (updating dir id f) d sound reads = update-view dir id f d sound reads
  run-refines (moving_to from id to) d sound reads = move-view from id to d sound
