-- ===== src/Tests/Pull.antt =====
-- src/pull.rs on small data: one open ask, put to `bob`, and bob's reply to it.
use owlpost.Client.{ack, verify_answer, Wire, Reply, down}
use owlpost.Spool.{set_state_with_event, move_to, cache_put, put, get}
use owlpost.Pull.{
  close, put_unchecked, store_answer, ingest_answer, find_ask, OpenAsk, Ingested, ingested,
  open_asks, ingest_envelope,
}
use owlpost.Spool.Names.{FilePath-discrete}
use owlpost.Record.{Dir-discrete, Record, asks}
use owlpost.Prelude.{
  ◌≡◌, ◌⊎◌, refl, sym, subst, ◌∙◌, ◌*◌, false, none, some, List, [], ◌∷◌, All, arith,
}
use owlpost.Prelude.Results.{ok, ok-injective}
use owlpost.Json.{str, obj, empty, entry}
use owlpost.Envelope.Signed.{Envelope}
use owlpost.Error.{message}
use owlpost.Spool.Files.{Disk}
use owlpost.Spool.Others.{IsThere}
use owlpost.Spool.Changes.{Readable}
use owlpost.Pull.Asked.{IsAskOf}
use owlpost.Pull.Ingest.{StaysInside}
use owlpost.Pull.Closing.{IsAnswered, ingest_envelope-closes}
use owlpost.Pull.Liveness.{
  new_liveness, skip_for, should_skip, second, new_liveness-IsOf, never_skipped,
}
use owlpost.Pull.Loop.{PullState, pull_once}
use owlpost.Pull.Loop.Waits.{Reason, IsOwned}
use owlpost.Pull.Loop.Closes.{SendInside, pull_once-keeps}
use owlpost.Tests.Route.{no_routes, outside}
use owlpost.Tests.Data.{codec, external, answer, contact, stored, disk_with, config}

abbrev reply : Reply
reply = record { status = 200; signature = none; retry_after = none; body = [] }

abbrev envelope : Envelope
envelope = record { raw = "answer"; sig = "signed" }

abbrev wire : Wire
wire = record {
  tls_fails = λ _. false;
  dial = λ _ _. ok reply;
  over_endpoint = λ _ _ _. down "refused";
  to_bytes = λ _. [];
  from_utf8_lossy = λ _. "";
  from_slice = λ _. none;
  outbox_items = λ _. some (envelope ∷ []);
  status_error = λ _ _. "";
}

abbrev ask_record : Record
ask_record = record (stored "question" "open") { meta = obj (entry "peer" (str "bob") empty) }

abbrev disk : Disk Record
disk = disk_with asks "q1" ask_record

abbrev ask : OpenAsk
ask = record { id = "q1"; peer = "bob"; hash = "hash"; path = "-"; threaded = false }

is_open : open_asks ⦃e = external⦄ ⦃c = codec⦄ disk ≡ ok (ask ∷ [])
unfolding open_asks mathlib.Core.List.filter_map Dir-discrete get FilePath-discrete
is_open = refl

readable : Readable ⦃c = codec⦄ disk
readable p = refl

is_there : get ⦃c = codec⦄ asks "q1" disk ≡ ok (some ask_record)
unfolding get FilePath-discrete
is_there = refl

abbrev taken : Ingested
taken = record { ask = ask; answer = answer; ack_error = some (message "") }

is_ingested :
    (ingest_envelope ⦃e = external⦄ ⦃w = wire⦄ ⦃c = codec⦄ "now" contact (ask ∷ []) envelope disk).0
    ≡ ok (ingested taken)
unfolding ingest_envelope verify_answer find_ask ingest_answer store_answer put_unchecked put
    FilePath-discrete cache_put close move_to set_state_with_event ack
is_ingested = refl

ingest_envelope-closes_example :
    IsAnswered ⦃c = codec⦄ "now" "q1" ask_record
      (ingest_envelope ⦃e = external⦄ ⦃w = wire⦄ ⦃c = codec⦄ "now" contact
        (ask ∷ [])
        envelope
        disk).1
ingest_envelope-closes_example =
    ingest_envelope-closes ⦃e = external⦄ ⦃w = wire⦄ ⦃c = codec⦄ "now" contact (λ r. refl) envelope
      disk readable (λ reply parsed. refl) ask_record taken is_there (ask ∷ []) is_ingested

abbrev state : PullState Record
state = record {
  disk = disk;
  routes = no_routes;
  liveness = new_liveness (skip_for (60 * second));
  events = [];
  still_open = [];
  probed = 0;
}

IsOwned-asks :
    (l : List OpenAsk)
    → open_asks ⦃e = external⦄ ⦃c = codec⦄ disk ≡ ok l
    → All (IsOwned "bob" "q1") l
IsOwned-asks l e = subst (All (IsOwned "bob" "q1")) (ok-injective (sym is_open ∙ e)) (λ _. refl, tt)

stay_inside : (items : List Envelope) → All (StaysInside ⦃e = external⦄) items
stay_inside [] = tt
stay_inside (env ∷ items) = (λ reply parsed. refl, stay_inside items)

sends_inside : SendInside ⦃e = external⦄ ⦃w = wire⦄
sends_inside _ items sent = stay_inside items

pull_once-keeps_example :
    IsThere ⦃c = codec⦄
      (IsAskOf ⦃e = external⦄ "q1" ask_record)
      asks
      "q1"
      (pull_once ⦃e = external⦄ ⦃w = wire⦄ ⦃c = codec⦄ outside
        (some config)
        "now"
        0
        (some (contact ∷ []))
        state).1.disk
    ⊎ Reason ⦃e = external⦄ ⦃w = wire⦄ (contact ∷ []) "bob" "q1"
pull_once-keeps_example =
    pull_once-keeps ⦃e = external⦄ ⦃w = wire⦄ ⦃c = codec⦄ outside (some config) "now" 0 (λ r. refl)
      sends_inside (contact ∷ []) ask_record "bob" "q1" state IsOwned-asks readable is_there

never_skipped_example :
    should_skip (new_liveness (skip_for (60 * second))) "bob" (59 * second) ≡ false
never_skipped_example =
    never_skipped (60 * second) 0 (59 * second) (new_liveness (skip_for (60 * second))) "bob"
      (omega arith) (new_liveness-IsOf (60 * second) 0) (omega arith)
