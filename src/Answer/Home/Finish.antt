-- ===== src/Answer/Home/Finish.antt =====
-- src/answer.rs: how `finish` ends, and that the record is never in neither directory.
use owlpost.Prelude.{
  String, ◌≡◌, ◌≢◌, refl, sym, ap, subst, ◌∙◌, true, false, none, some, List, [], ◌∷◌, ◌++◌, arith,
  ◌⊎◌, inl, inr, if◌then◌else◌, Bool-cases, Option-cases,
}
use owlpost.Prelude.Results.{Result, ok, err}
use owlpost.Prelude.Exec.{continue, continue-state}
use owlpost.Json.{Value}
use owlpost.Record.{Record, Dir, inbox, done}
use owlpost.Error.{Error, removing}
use owlpost.Spool.{get, put}
use owlpost.Spool.Names.{FilePath, FilePath-discrete, record_path}
use owlpost.Spool.Files.{Codec, Disk, at, find, remove_file, find-erase}
use owlpost.Spool.Atomic.{is_ok, put-Replaces, temp-ne-record, remove_file-at, remove_file-faults}
use owlpost.Spool.Readers.{get-put_ne, get_cong}
use owlpost.Spool.Changes.{Readable, get-of_put, get-of_none}
use owlpost.Answer.Home.{Home, Ev, finish, finished, finishing_error}

inbox-done : inbox ≢ done
inbox-done e = cc

pub inbox-ne-done : (id : String) → record_path done id ≢ record_path inbox id
inbox-ne-done id e = inbox-done (sym (ap (λ (p : FilePath). p.dir) e))

module _ {B : Type 0} where
  -- A removal that succeeded leaves no file, one that failed changes nothing.
  pub remove_file-cases :
      (p : FilePath) (d : Disk B)
      → ((x : Error) × (remove_file p d ≡ (err x, d)))
        ⊎ ((remove_file p d).0 ≡ ok tt) × (at p (remove_file p d).1 ≡ none)
  unfolding remove_file
  remove_file-cases p d = elim (Bool-cases (d.faults.remove p)) [
    | inl fails ↦ inl (removing p, rw fails)
    | inr works ↦ elim (Option-cases (find p d.files)) [
      | inl missing ↦ inl (removing p, rw (works, missing, remove_file))
      | inr (b, there) ↦ inr (
        rw (works, there, remove_file),
        rw (works, there, remove_file) (ground (arith, find-erase p p d.files)),
      )
    ]
  ]

abbrev pub remove_step :
    {B : Type 0} → String → Unit {0} → Home B → Result Error (Unit {0}) × Home B
remove_step id _ h' = (
  (remove_file (record_path inbox id) h'.disk).0,
  record h' {
    disk = (remove_file (record_path inbox id) h'.disk).1;
    released = h'.released ++ id ∷ [];
  },
)

module _ {B : Type 0} ⦃c : Codec B⦄ (now id : String) (rec : Record) (state : String)
    (extra : List (String × Value)) (event : Ev) (h : Home B) where
  abbrev closed : Record
  closed = finished now rec state extra event

  -- The three ways in which `finish` ends.
  pub data Ending (r : Result Error (Unit {0}) × Home B) : Type 0 where
    -- The copy was not written: it returns an error, and every record reads as before.
    not_written :
        is_ok r.0 ≡ false
        → ((dir : Dir) (id' : String) → get dir id' r.1.disk ≡ get dir id' h.disk)
        → Ending r
    -- The copy stands in `done` beside the record, which was not removed: it returns an error.
    not_removed :
        is_ok r.0 ≡ false
        → get done id r.1.disk ≡ ok (some closed)
        → get inbox id r.1.disk ≡ get inbox id h.disk
        → Ending r
    -- The record has left the inbox.
    closed_record :
        is_ok r.0 ≡ true
        → get done id r.1.disk ≡ ok (some closed)
        → get inbox id r.1.disk ≡ ok none
        → Ending r

  removal-Ending :
      (d : Disk B)
      → Readable d
      → get done id d ≡ ok (some closed)
      → get inbox id d ≡ get inbox id h.disk
      → Ending (remove_step id tt (record h { disk = d }))
  removal-Ending d readable written before = elim (remove_file-cases (record_path inbox id) d) [
    | inl (x, same) ↦ rw same (not_removed refl written before)
    | inr (worked, gone) ↦
        let d' = (remove_file (record_path inbox id) d).1 in
        let faults = remove_file-faults (record_path inbox id) d in
        let still = get_cong done id d d' faults (
          remove_file-at (record_path inbox id) (record_path done id) d
            (λ e. inbox-ne-done id (sym e))) in
        closed_record (ap is_ok worked) (still ∙ written) (
          get-of_none inbox id d'
            (ap (λ f. f.read (record_path inbox id)) faults ∙ readable (record_path inbox id)) gone)
  ]

  put-Ending :
      (r : Result Error (Unit {0}) × Disk B)
      → (is_ok r.0 ≡ false → (dir : Dir) (id' : String) → get dir id' r.1 ≡ get dir id' h.disk)
      → (is_ok r.0 ≡ true
          → (Readable r.1)
            × (get done id r.1 ≡ ok (some closed))
            × (get inbox id r.1 ≡ get inbox id h.disk))
      → Ending (continue (finishing_error id r.0, record h { disk = r.1 }) (remove_step id))
  put-Ending (ok u, d) failed written =
      let (readable, there, before) = written refl in removal-Ending d readable there before
  put-Ending (err x, d) failed written = not_written refl (failed refl)

finish_from-log :
    {B : Type 0} (id : String) (h : Home B) (r : Result Error (Unit {0}) × Disk B)
    → (continue (finishing_error id r.0, record h { disk = r.1 }) (remove_step id)).1.log ≡ h.log
finish_from-log id h (ok u, d) = refl
finish_from-log id h (err x, d) = refl

-- A `put` that failed leaves every record as it read before.
pub get-put_failed :
    {B : Type 0} ⦃c : Codec B⦄ (dir : Dir) (id : String) (rec : Record) (d : Disk B)
    → is_ok (put dir id rec d).0 ≡ false
    → (dir' : Dir) (id' : String) → get dir' id' (put dir id rec d).1 ≡ get dir' id' d
get-put_failed ⦃c⦄ dir id rec d failed dir' id' =
    let replaced = put-Replaces dir id rec d in
    let same : at (record_path dir id) (put dir id rec d).1 ≡ at (record_path dir id) d =
      replaced.target
      ∙ ap (λ t. if t then some (c.to_vec_pretty rec) else at (record_path dir id) d) failed in
    get_cong dir' id' d (put dir id rec d).1 replaced.faults
      (elim (FilePath-discrete (record_path dir id) (record_path dir' id')) [
        | yes e ↦ subst (λ p. at p (put dir id rec d).1 ≡ at p d) e same
        | no other ↦
            replaced.others (record_path dir' id') (λ e. temp-ne-record dir dir' id id' (sym e))
              (λ e. other (sym e))
      ])

ok-of_is_ok : (r : Result Error (Unit {0})) → is_ok r ≡ true → r ≡ ok tt
ok-of_is_ok (ok u) h = refl
ok-of_is_ok (err x) h = cc

module _ {B : Type 0} ⦃c : Codec B⦄ (now id : String) (rec : Record) (state : String)
    (extra : List (String × Value)) (event : Ev) (h : Home B) where
  -- `finish` ends in one of three ways, whatever calls on the disk fail but the reads: the copy was
  -- not written and no record has changed; the copy was written and the record is still in the
  -- inbox; or the copy was written and the record is gone from the inbox. Only the last is a
  -- success. That serde_json reads back the record that it wrote is a hypothesis.
  pub finish-Ending :
      c.from_slice (c.to_vec_pretty (closed now id rec state extra event h))
        ≡ some (closed now id rec state extra event h)
      → Readable h.disk
      → Ending now id rec state extra event h (finish now id rec state extra event h)
  unfolding finish
  finish-Ending reads readable =
      let copy = closed now id rec state extra event h in
      let replaced = put-Replaces done id copy h.disk in
      put-Ending now id rec state extra event h (put done id copy h.disk)
        (get-put_failed done id copy h.disk)
        (λ worked. (
          λ p. ap (λ f. f.read p) replaced.faults ∙ readable p,
          get-of_put done id copy h.disk tt reads readable
              (ok-of_is_ok (put done id copy h.disk).0 worked),
          get-put_ne done id copy h.disk inbox id (λ e. inbox-ne-done id (sym e)),
        ))

  -- The log is not touched.
  pub finish-log : (finish now id rec state extra event h).1.log ≡ h.log
  unfolding finish
  finish-log = finish_from-log id h (put done id (closed now id rec state extra event h) h.disk)

  -- Another record reads as before.
  pub finish-get_ne :
      (dir : Dir) (id' : String)
      → record_path dir id' ≢ record_path done id
      → record_path dir id' ≢ record_path inbox id
      → get dir id' (finish now id rec state extra event h).1.disk ≡ get dir id' h.disk
  unfolding finish
  finish-get_ne dir id' not_done not_inbox =
      let copy = closed now id rec state extra event h in
      let kept = get-put_ne done id copy h.disk dir id' not_done in
      let d = (put done id copy h.disk).1 in
      continue-state (λ (h' : Home B). get dir id' h'.disk ≡ get dir id' h.disk)
        (finishing_error id (put done id copy h.disk).0, record h { disk = d }) (remove_step id)
        kept
        (λ _ _.
          get_cong dir id' d _ (remove_file-faults (record_path inbox id) d)
            (remove_file-at (record_path inbox id) (record_path dir id') d (λ e. not_inbox (sym e)))
          ∙ kept)
