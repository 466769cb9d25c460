-- ===== src/Tests/Spool.antt =====
-- src/spool.rs, src/events.rs, src/envelope.rs and src/contacts/mod.rs on small data.
use owlpost.Json.{to_list, lookup, Value, obj, arr, empty, entry, nil, cons}
use owlpost.Record.{meta_object, Dir-discrete, Record, inbox, outbox}
use owlpost.Events.{stored_events, Event, event_value, push, events_max, state_seen}
use owlpost.Spool.Names.{FilePath-discrete, FilePath, record_path, temp_path}
use owlpost.Prelude.{
  ◌≤◌, ◌≡◌, ◌≢◌, refl, ap, true, false, none, some, List, [], ◌∷◌, All, arith, if◌then◌else◌,
  length, eq_iff,
}
use owlpost.Prelude.Results.{ok, err}
use owlpost.Error.{reading}
use owlpost.Envelope.Time.{unix_to_rfc3339, parse_rfc3339_to_unix}
use owlpost.Envelope.Time.RoundTrip.{parse-unix_to_rfc3339}
use owlpost.Contacts.{add_global, or_else, policy_of}
use owlpost.Contacts.Merging.{with_key, add_global-policy}
use owlpost.Events.Push.{events, push-le-events_max, push-keeps_first}
use owlpost.Spool.{get, put, list, list_lenient}
use owlpost.Spool.Files.{Disk, write_file}
use owlpost.Spool.Atomic.{is_ok}
use owlpost.Spool.Spec.{Sound, view, run, spec, moving_to, run-refines}
use owlpost.Spool.Readers.{put_is_atomic}
use owlpost.Spool.Listing.{IsListed, list-IsListed, list_lenient-list}
use owlpost.Tests.Data.{codec, stored, disk_with, contact}

abbrev rec : Record
rec = stored "question" "pending"

abbrev disk : Disk Record
disk = disk_with outbox "a1" (stored "answer" "unacked")

outbox-inbox : outbox ≢ inbox
outbox-inbox e = cc

apart : record_path outbox "a1" ≢ record_path inbox "q1"
apart e = outbox-inbox (ap (λ (p : FilePath). p.dir) e)

put_is_atomic_example :
    (get ⦃c = codec⦄ inbox "q1" (write_file (temp_path inbox "q1") rec disk).1
      ≡ get ⦃c = codec⦄ inbox "q1" disk)
    × (get ⦃c = codec⦄ outbox "a1" (write_file (temp_path inbox "q1") rec disk).1
        ≡ get ⦃c = codec⦄ outbox "a1" disk)
    × (get ⦃c = codec⦄ outbox "a1" (put ⦃c = codec⦄ inbox "q1" rec disk).1
        ≡ get ⦃c = codec⦄ outbox "a1" disk)
    × (get ⦃c = codec⦄ inbox "q1" (put ⦃c = codec⦄ inbox "q1" rec disk).1 ≡ (
        if is_ok (put ⦃c = codec⦄ inbox "q1" rec disk).0
        then (if false then err (reading (record_path inbox "q1")) else ok (some rec))
        else get ⦃c = codec⦄ inbox "q1" disk))
put_is_atomic_example = put_is_atomic ⦃c = codec⦄ inbox "q1" rec disk outbox "a1" apart refl

listed : list ⦃c = codec⦄ outbox (λ _. true) disk ≡ ok (("a1", stored "answer" "unacked") ∷ [])
unfolding list Dir-discrete get FilePath-discrete
listed = refl

list-IsListed_example :
    All (IsListed ⦃c = codec⦄ outbox (λ _. true) disk) (("a1", stored "answer" "unacked") ∷ [])
list-IsListed_example =
    list-IsListed ⦃c = codec⦄ outbox (λ _. true) disk (("a1", stored "answer" "unacked") ∷ [])
      listed

list_lenient-list_example :
    list_lenient ⦃c = codec⦄ outbox disk ≡ ok (("a1", stored "answer" "unacked") ∷ [])
list_lenient-list_example =
    list_lenient-list ⦃c = codec⦄ outbox disk (("a1", stored "answer" "unacked") ∷ []) listed

abbrev received : Event
received = record { ts = "2001-09-09T01:46:40Z"; kind = "received"; by = none; detail = none }

abbrev logged : Record
logged = record rec { meta = obj (entry "events" (arr (cons (event_value received) nil)) empty) }

is_short : length (events rec) ≤ events_max
unfolding events stored_events lookup meta_object
is_short = omega arith

push-le-events_max_example : length (events (push "now" "drafted" none none rec)) ≤ events_max
push-le-events_max_example = push-le-events_max "now" "drafted" none none rec is_short

begins : events logged ≡ event_value received ∷ []
unfolding events stored_events lookup meta_object to_list
begins = refl

push-keeps_first_example :
    (rest : List Value) × (events (push "now" "drafted" none none logged)
      ≡ event_value received ∷ rest)
push-keeps_first_example =
    push-keeps_first "now" "drafted" none none logged (event_value received) [] begins

clash : false ≡ true → ⊥
clash e = cc

not_seen : "drafted" ≢ state_seen
not_seen e = clash ((eq_iff "drafted" state_seen).1 e)

parse-unix_to_rfc3339_example : parse_rfc3339_to_unix (unix_to_rfc3339 1000000000) ≡ some 1000000000
parse-unix_to_rfc3339_example = parse-unix_to_rfc3339 1000000000 (omega arith)

add_global-policy_example :
    policy_of (with_key "bob-key" (add_global (contact ∷ []) contact))
    ≡ or_else contact.policy (policy_of (with_key "bob-key" (contact ∷ [])))
add_global-policy_example = add_global-policy (contact ∷ []) contact

sound : Sound ⦃c = codec⦄ disk
sound = record { writes = λ p. refl; renames = λ p. refl; reads = λ p. refl }

run-refines_example :
    view ⦃c = codec⦄ (run ⦃c = codec⦄ (moving_to outbox "a1" inbox) disk).1 inbox "a1"
    ≡ spec (moving_to outbox "a1" inbox) (view ⦃c = codec⦄ disk) inbox "a1"
run-refines_example =
    run-refines ⦃c = codec⦄ (moving_to outbox "a1" inbox) disk sound (λ r. refl) inbox "a1"
