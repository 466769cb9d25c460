-- ===== src/Tests/Answer.antt =====
-- src/answer.rs: an answer is sent, sent again, and a record is finished.
use owlpost.Spool.{get as get_in_spool}
use owlpost.Spool.Names.{FilePath-discrete, record_path}
use owlpost.Record.{Dir-discrete, Record, inbox, outbox, done}
use owlpost.Prelude.{◌≡◌, ◌≢◌, refl, true, false, none, some, [], ◌∷◌}
use owlpost.Prelude.Results.{ok}
use owlpost.Json.{str, obj, empty, entry}
use owlpost.Spool.Files.{Disk, at, no_faults}
use owlpost.Answer.Draft.{to_value}
use owlpost.Answer.Home.{Home, SendMode, OutgoingLog, appended, has_line, Ev, finish}
use owlpost.Answer.Home.Finish.{Ending, finish-Ending}
use owlpost.Answer.Send.{Sent, send, existing_answer}
use owlpost.Answer.Send.Effects.{send-has_line}
use owlpost.Answer.Send.Retries.{send_again}
use owlpost.Tests.Data.{codec, external, stored, disk_with}

abbrev empty_log : OutgoingLog
empty_log = record { lines = []; open_line = false; read_fails = false; fault = appended }

abbrev home_with : Disk Record → Home Record
home_with disk = record { disk = disk; log = empty_log; released = []; has_key = true }

abbrev drafted : Record
drafted = record (stored "question" "drafted") {
  draft = some (
      to_value (record {
        text = "because";
        harness = "human";
        redactions = 0;
        status = "ok";
        drafted_at = "2001-09-09T01:46:40Z";
      }));
}

abbrev home : Home Record
home = home_with (disk_with inbox "q1" drafted)

abbrev sent_once : Sent
sent_once = record { answer_id = "a1"; to = "bob"; harness = "human"; redactions = 0 }

sends :
    (send ⦃e = external⦄ ⦃c = codec⦄ "a1" "now" "q1" drafted SendMode.manual home).0 ≡ ok sent_once
unfolding send to_value Dir-discrete FilePath-discrete
sends = refl

send-has_line_example :
    has_line "q1"
      (send ⦃e = external⦄ ⦃c = codec⦄ "a1" "now" "q1" drafted SendMode.manual home).1.log
    ≡ true
send-has_line_example =
    send-has_line ⦃e = external⦄ ⦃c = codec⦄ "a1" "now" "q1" drafted SendMode.manual home sent_once
      refl sends

abbrev answered : Home Record
answered = home_with (record {
  files =
      (
        record_path outbox "a1",
        record (stored "answer" "unacked") { meta = obj (entry "question_id" (str "q1") empty) },
      )
      ∷ (record_path inbox "q1", drafted)
      ∷ [];
  faults = no_faults;
})

is_answered :
    existing_answer ⦃e = external⦄ ⦃c = codec⦄ "q1" answered.disk ≡ ok (some ("a1", "bob"))
unfolding existing_answer Dir-discrete get_in_spool FilePath-discrete
is_answered = refl

inbox-outbox : inbox ≢ outbox
inbox-outbox e = cc

done-outbox : done ≢ outbox
done-outbox e = cc

send_again_example :
    at
      (record_path outbox "a2")
      (send ⦃e = external⦄ ⦃c = codec⦄ "a2" "now" "q1" drafted SendMode.manual answered).1.disk
    ≡ at (record_path outbox "a2") answered.disk
send_again_example =
    send_again ⦃e = external⦄ ⦃c = codec⦄ "a2" "now" "q1" drafted SendMode.manual answered
      ("a1", "bob") is_answered outbox inbox-outbox done-outbox "a2"

abbrev rejected : Ev
rejected = record { kind = "rejected"; by = some "human"; detail = none }

finish-Ending_example :
    Ending ⦃c = codec⦄ "now" "q1" drafted "rejected" [] rejected home
      (finish ⦃c = codec⦄ "now" "q1" drafted "rejected" [] rejected home)
finish-Ending_example =
    finish-Ending ⦃c = codec⦄ "now" "q1" drafted "rejected" [] rejected home refl (λ p. refl)
