-- ===== src/Spool/Changes.antt =====
-- What `get` reads after the changes that src/spool.rs makes where no read fails.
use owlpost.Prelude.{
  String, ◌≡◌, ◌≢◌, refl, sym, ap, ◌∙◌, Bool, true, false, Option, none, some, inl, inr,
}
use owlpost.Prelude.Results.{Result, ok, err}
use owlpost.Prelude.Exec.{continue, continue-ok}
use owlpost.Record.{Record, Dir}
use owlpost.Error.{Error}
use owlpost.Spool.Names.{FilePath, record_path, record_file}
use owlpost.Spool.Files.{Codec, Disk, at}
use owlpost.Spool.{get, put, update, updated, move_to, parsed}
use owlpost.Spool.Atomic.{is_ok}
use owlpost.Spool.Readers.{get-at, reading_of, get-put_self, get-put_ne}
use owlpost.Spool.Moves.{move_to-cases}

parsed-some :
    (p : FilePath) (o : Option Record) (rec : Record) → parsed p o ≡ ok (some rec) → o ≡ some rec
parsed-some p none rec h = cc
parsed-some p (some r) rec h = cc

module _ {B : Type 0} ⦃c : Codec B⦄ where
  reading_of-some :
      (p : FilePath) (fails : Bool) (bytes : Option B) (rec : Record)
      → reading_of p fails bytes ≡ ok (some rec)
      → (b : B) × (bytes ≡ some b) × (c.from_slice b ≡ some rec)
  reading_of-some p true bytes rec h = cc
  reading_of-some p false none rec h = cc
  reading_of-some p false (some b) rec h = (b, refl, parsed-some p (c.from_slice b) rec h)

  -- A record that reads has a file.
  pub get-some :
      (dir : Dir) (id : String) (d : Disk B) (rec : Record)
      → get dir id d ≡ ok (some rec)
      → (b : B) × (at (record_path dir id) d ≡ some b) × (c.from_slice b ≡ some rec)
  get-some dir id d rec h =
      reading_of-some (record_path dir id) (d.faults.read (record_path dir id))
        (at (record_path dir id) d) rec (sym (get-at dir id d) ∙ h)

  pub get-of_file :
      (dir : Dir) (id : String) (d : Disk B) (b : B) (rec : Record)
      → d.faults.read (record_path dir id) ≡ false
      → at (record_path dir id) d ≡ some b
      → c.from_slice b ≡ some rec
      → get dir id d ≡ ok (some rec)
  get-of_file dir id d b rec readable there reads = rw (get-at, readable, there, reads)

  pub get-of_none :
      (dir : Dir) (id : String) (d : Disk B)
      → d.faults.read (record_path dir id) ≡ false
      → at (record_path dir id) d ≡ none
      → get dir id d ≡ ok none
  get-of_none dir id d readable missing = rw (get-at, readable, missing)

  pub update-found :
      (dir : Dir) (id : String) (f : Record → Record) (d : Disk B) (rec : Record)
      → get dir id d ≡ ok (some rec)
      → update dir id f d ≡ put dir id (f rec) d
  unfolding update
  update-found dir id f d rec h = rw (h, update)

is_ok-of : {E A : Type 0} (r : Result E A) (a : A) → r ≡ ok a → is_ok r ≡ true
is_ok-of (ok x) a h = refl
is_ok-of (err e) a h = cc

clash : true ≡ false → ⊥
clash h = cc

module _ {B : Type 0} ⦃c : Codec B⦄ (d : Disk B) where
  abbrev pub Readable : Type 0
  Readable = (p : FilePath) → d.faults.read p ≡ false

-- Where no read fails and serde_json reads what it wrote, a `put` that succeeded is read back.
pub get-of_put :
    {B : Type 0} ⦃c : Codec B⦄ (dir : Dir) (id : String) (rec : Record) (d : Disk B) (u : Unit {0})
    → c.from_slice (c.to_vec_pretty rec) ≡ some rec
    → Readable d
    → (put dir id rec d).0 ≡ ok u
    → get dir id (put dir id rec d).1 ≡ ok (some rec)
get-of_put dir id rec d u reads readable h = rw (
  get-put_self dir id rec d reads,
  is_ok-of (put dir id rec d).0 u h,
  readable (record_path dir id),
)

-- A move followed by an update, both of which succeeded.
pub move_and_update :
    {B : Type 0} ⦃c : Codec B⦄ (from : Dir) (id : String) (to : Dir) (f : Record → Record)
    (d : Disk B) (rec : Record) (u : Unit {0})
    → record_path from id ≢ record_path to id
    → ((r : Record) → c.from_slice (c.to_vec_pretty r) ≡ some r)
    → Readable d
    → get from id d ≡ ok (some rec)
    → (continue (move_to from id to d) (λ _. update to id f)).0 ≡ ok u
    → (get from id (continue (move_to from id to d) (λ _. update to id f)).1 ≡ ok none)
      × (get to id (continue (move_to from id to d) (λ _. update to id f)).1 ≡ ok (some (f rec)))
move_and_update from id to f d rec u apart reads readable got h =
    elim (move_to-cases from id to apart d) [
      | inl (failed, _) ↦
          let (_, worked, _) = continue-ok (move_to from id to d) (λ _. update to id f) h in
          absurd (clash (sym (is_ok-of (move_to from id to d).0 tt worked) ∙ failed))
      | inr (_, m) ↦
          let (_, _, same) = continue-ok (move_to from id to d) (λ _. update to id f) h in
          let d1 = (move_to from id to d).1 in
          let readable1 : Readable d1 = λ p. ap (λ f. f.read p) m.faults ∙ readable p in
          let (b, there, parses) = get-some from id d rec got in
          let moved_there =
            get-of_file to id d1 b rec (readable1 (record_path to id)) (m.arrived ∙ there) parses in
          let all_same = same ∙ update-found to id f d1 rec moved_there in
          let put_worked = ap (λ (x : Result Error (Unit {0}) × Disk _). x.0) (sym all_same) ∙ h in
          rw all_same (
            get-put_ne to id (f rec) d1 from id apart
                ∙ get-of_none from id d1 (readable1 (record_path from id)) m.gone,
            get-of_put to id (f rec) d1 u (reads (f rec)) readable1 put_worked,
          )
    ]

record_file-injective : {a b : String} → record_file a ≡ record_file b → a ≡ b
record_file-injective h = cc

-- One path is one record.
pub get-same_path :
    {B : Type 0} ⦃c : Codec B⦄ {dir dir' : Dir} {id id' : String} (d : Disk B)
    → record_path dir id ≡ record_path dir' id'
    → get dir id d ≡ get dir' id' d
get-same_path {dir = dir} {id' = id'} d e =
    ap (λ i. get dir i d) (record_file-injective (ap (λ (p : FilePath). p.file) e))
    ∙ ap (λ x. get x id' d) (ap (λ (p : FilePath). p.dir) e)

-- An update leaves every other record as it reads.
get-updated_ne :
    {B : Type 0} ⦃c : Codec B⦄ (dir : Dir) (id : String) (f : Record → Record) (d : Disk B)
    (dir' : Dir) (id' : String)
    → record_path dir' id' ≢ record_path dir id
    → (found : Result Error (Option Record))
    → get dir' id' (updated dir id f d found).1 ≡ get dir' id' d
get-updated_ne dir id f d dir' id' other (err e) = refl
get-updated_ne dir id f d dir' id' other (ok none) = refl
get-updated_ne dir id f d dir' id' other (ok (some rec)) =
    get-put_ne dir id (f rec) d dir' id' other

pub get-update_ne :
    {B : Type 0} ⦃c : Codec B⦄ (dir : Dir) (id : String) (f : Record → Record) (d : Disk B)
    (dir' : Dir) (id' : String)
    → record_path dir' id' ≢ record_path dir id
    → get dir' id' (update dir id f d).1 ≡ get dir' id' d
unfolding update
get-update_ne dir id f d dir' id' other = get-updated_ne dir id f d dir' id' other (get dir id d)
