-- ===== src/Answer/Home.antt =====
-- src/answer.rs: the home directory as `finish` and `send` change it, and the outgoing log.
pub mod Finish
use owlpost.Prelude.{
  ℕ, String, Bool, true, false, Option, none, some, List, [], ◌∷◌, ◌++◌, ◌==◌, if◌then◌else◌, any,
}
use owlpost.Prelude.Results.{Result, ok, err}
use owlpost.Prelude.Exec.{Exec, continue}
use owlpost.Json.{Value, Map, str, insert}
use owlpost.Record.{Record, Dir, inbox, done, meta_object, with_meta}
use owlpost.Error.{Error, finishing, message}
use owlpost.Events.{push}
use owlpost.Spool.{put}
use owlpost.Spool.Names.{record_path}
use owlpost.Spool.Files.{Codec, Disk, remove_file}

-- `SendMode`
pub data SendMode : Type 0 where
  manual auto : SendMode

pub record OutgoingLine : Type 0 where
  pub ts : String
  pub to : String
  pub question_id : String
  pub harness : String
  pub redactions : ℕ
  pub answer_sha256 : String
  pub mode : SendMode

-- A line of log/outgoing.jsonl; one that is not JSON is `garbage`.
pub data LogLine : Type 0 where
  line : OutgoingLine → LogLine
  garbage : LogLine

-- How an append ends: the whole line is written, or none of it, or a part without its newline.
pub data AppendFault : Type 0 where
  appended lost cut : AppendFault

-- `open_line`: the last line has no newline yet, so what is appended continues it.
pub record OutgoingLog : Type 0 where
  pub lines : List LogLine
  pub open_line : Bool
  pub read_fails : Bool
  pub fault : AppendFault

-- The home: the spool, the outgoing log, the ids whose wake files were released, and whether the
-- identity's key loads.
pub record Home (B : Type 0) : Type 0 where
  pub disk : Disk B
  pub log : OutgoingLog
  pub released : List String
  pub has_key : Bool

abbrev pub is_line_of : String → LogLine → Bool
is_line_of id (line l) = l.question_id == id
is_line_of id garbage = false

unfoldable pub has_line : String → OutgoingLog → Bool
has_line id log = any (is_line_of id) log.lines

-- `has_outgoing_line`
unfoldable pub has_outgoing_line : String → OutgoingLog → Result Error Bool
unfolding has_line
has_outgoing_line id log =
    if log.read_fails then err (message "reading the log") else ok (has_line id log)

-- What is appended to an open line spoils it.
abbrev after_open : List LogLine → List LogLine
after_open [] = []
after_open (l ∷ []) = garbage ∷ []
after_open (l ∷ k ∷ ls) = l ∷ after_open (k ∷ ls)

abbrev pub extended : OutgoingLog → LogLine → List LogLine
extended log l = if log.open_line then after_open log.lines else log.lines ++ l ∷ []

abbrev pub append_with :
    AppendFault → OutgoingLine → OutgoingLog → Result Error (Unit {0}) × OutgoingLog
append_with appended l log =
    (ok tt, record log { lines = extended log (line l); open_line = false })
append_with lost l log = (err (message "appending to the log"), log)
append_with cut l log = (
  err (message "appending to the log"),
  record log { lines = extended log garbage; open_line = true },
)

-- `append_outgoing`
unfoldable pub append_outgoing : OutgoingLine → OutgoingLog → Result Error (Unit {0}) × OutgoingLog
append_outgoing l log = append_with log.fault l log

module _ {B : Type 0} where
  abbrev pub on_spool : {A : Type 0} → Exec Error (Disk B) A → Exec Error (Home B) A
  on_spool m h = ((m h.disk).0, record h { disk = (m h.disk).1 })

abbrev insert_all : List (String × Value) → Map → Map
insert_all [] m = m
insert_all ((k, v) ∷ kvs) m = insert_all kvs (insert k v m)

-- `Ev`
pub record Ev : Type 0 where
  pub kind : String
  pub by : Option String
  pub detail : Option Value

-- The record that `finish` writes.
unfoldable pub finished :
    (now : String) → Record → (state : String) → List (String × Value) → Ev → Record
unfolding push insert meta_object
finished now rec state extra event = push now event.kind event.by event.detail (
    with_meta (insert_all extra (insert "done_at" (str now) (meta_object rec.meta)))
      (record rec { state = state }))

abbrev pub finishing_error : String → Result Error (Unit {0}) → Result Error (Unit {0})
finishing_error id (ok _) = ok tt
finishing_error id (err e) = err (finishing id e)

module _ {B : Type 0} ⦃c : Codec B⦄ where
  -- The copy in `done`, then the release of the wake files, then the removal from the inbox.
  unfoldable pub finish :
      (now id : String)
      → Record
      → (state : String) → List (String × Value)
      → Ev
      → Exec Error (Home B) Unit
  unfolding put finished remove_file
  finish now id rec state extra event h =
      continue
        (
          finishing_error id (put done id (finished now rec state extra event) h.disk).0,
          record h { disk = (put done id (finished now rec state extra event) h.disk).1 },
        )
        (λ _ h'. (
          (remove_file (record_path inbox id) h'.disk).0,
          record h' {
            disk = (remove_file (record_path inbox id) h'.disk).1;
            released = h'.released ++ id ∷ [];
          },
        ))
