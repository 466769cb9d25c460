-- ===== src/Spool/Readers.antt =====
-- What a reader of src/spool.rs sees before, during and after `put`, `move_to` and the updates.
use owlpost.Prelude.{String, ◌≡◌, ◌≢◌, sym, refl, Bool, Option, some, arith, if◌then◌else◌}
use owlpost.Prelude.Results.{Result, ok, err}
use owlpost.Record.{Record, Dir}
use owlpost.Error.{Error, reading}
use owlpost.Spool.Names.{FilePath, record_path, temp_path}
use owlpost.Spool.Files.{Codec, Disk, at, write_file}
use owlpost.Spool.{get, put, read_record}
use owlpost.Spool.Atomic.{is_ok, put-Replaces, write_temp-at, temp-ne-record, write_file-faults}

module _ {B : Type 0} ⦃c : Codec B⦄ where
  -- What `get` answers for the bytes that the file holds.
  abbrev pub reading_of : FilePath → Bool → Option B → Result Error (Option Record)
  reading_of p fails bytes = if fails then err (reading p) else read_record p bytes

  pub get-at :
      (dir : Dir) (id : String) (d : Disk B)
      → get dir id d
        ≡ reading_of
            (record_path dir id)
            (d.faults.read (record_path dir id))
            (at (record_path dir id) d)
  unfolding get
  get-at dir id d = refl

  pub get_cong :
      (dir : Dir) (id : String) (d d' : Disk B)
      → d'.faults ≡ d.faults
      → at (record_path dir id) d' ≡ at (record_path dir id) d
      → get dir id d' ≡ get dir id d
  get_cong dir id d d' f e = rw (get-at, f, e) (sym (get-at dir id d))

  module _ (dir : Dir) (id : String) (rec : Record) (d : Disk B) where
    abbrev written_path : FilePath
    written_path = record_path dir id

    get-write_temp :
        (dir' : Dir) (id' : String)
        → get dir' id' (write_file (temp_path dir id) (c.to_vec_pretty rec) d).1 ≡ get dir' id' d
    get-write_temp dir' id' =
        get_cong dir' id' d _ (write_file-faults (temp_path dir id) (c.to_vec_pretty rec) d) (
          write_temp-at dir id rec d (record_path dir' id')
            (λ e. temp-ne-record dir dir' id id' (sym e)))

    pub get-put_ne :
        (dir' : Dir) (id' : String)
        → record_path dir' id' ≢ written_path
        → get dir' id' (put dir id rec d).1 ≡ get dir' id' d
    get-put_ne dir' id' other = get_cong dir' id' d _ (put-Replaces dir id rec d).faults (
        (put-Replaces dir id rec d).others (record_path dir' id')
          (λ e. temp-ne-record dir dir' id id' (sym e)) other)

    pub get-put_self :
        c.from_slice (c.to_vec_pretty rec) ≡ some rec
        → get dir id (put dir id rec d).1 ≡ (
            if is_ok (put dir id rec d).0
            then (if d.faults.read written_path then err (reading written_path) else ok (some rec))
            else get dir id d)
    get-put_self reads =
        rw (get-at, (put-Replaces dir id rec d).faults, (put-Replaces dir id rec d).target)
          (ground (arith, get-at dir id d))

    -- For a record and any other: while `put` writes its temporary file both read as before. After a
    -- `put` that returned an error both read as before. After one that succeeded the record reads as
    -- it was given, or with the error of the disk if reading it fails, and the other as before.
    -- Whether the calls on the disk fail is arbitrary; that serde_json reads back the record that it
    -- wrote is a hypothesis.
    pub put_is_atomic :
        (dir' : Dir) (id' : String)
        → record_path dir' id' ≢ written_path
        → c.from_slice (c.to_vec_pretty rec) ≡ some rec
        → (get dir id (write_file (temp_path dir id) (c.to_vec_pretty rec) d).1 ≡ get dir id d)
          × (get dir' id' (write_file (temp_path dir id) (c.to_vec_pretty rec) d).1
              ≡ get dir' id' d)
          × (get dir' id' (put dir id rec d).1 ≡ get dir' id' d)
          × (get dir id (put dir id rec d).1 ≡ (
              if is_ok (put dir id rec d).0
              then (if d.faults.read written_path
                  then err (reading written_path)
                  else ok (some rec))
              else get dir id d))
    put_is_atomic dir' id' other reads = (
      get-write_temp dir id,
      get-write_temp dir' id',
      get-put_ne dir' id' other,
      get-put_self reads,
    )
