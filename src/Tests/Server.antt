-- ===== src/Tests/Server.antt =====
-- src/server.rs: a question is posted, posted again, refused, looked up, and its reply is taken.
use owlpost.Prelude.Chars.{utf8_width}
use owlpost.Config.{get as get_in_config}
use owlpost.Spool.{get as get_in_spool}
use owlpost.Server.Validate.{
  malformed_ref, escapes_root, typed_parse, validate_question_body, check_header,
  validate_content_body, validate_request, valid_id, matches,
}
use owlpost.Record.{Dir-discrete, Record, inbox, outbox, done}
use owlpost.Spool.Names.{FilePath-discrete}
use owlpost.Envelope.Time.{days_from_civil, value, from_fields, is_digit, parse_codes}
use owlpost.Json.{lookup_str, lookup, as_object, Map, str, obj, empty, entry}
use owlpost.Prelude.{ℕ, String, ◌≡◌, ◌≢◌, refl, true, some, [], ◌∷◌, ◌⊎◌, inl, All, arith, codes}
use owlpost.Prelude.Results.{ok, err}
use owlpost.Envelope.{is_request}
use owlpost.Envelope.Task.{working}
use owlpost.Spool.Files.{Disk}
use owlpost.Server.Api.{api_error, not_found}
use owlpost.Server.State.{AppState, Spooled, Bucket, take}
use owlpost.Server.Validate.Paths.{StaysInside, validate_content_body-StaysInside}
use owlpost.Server.Validate.Sound.{IsRead, validate_request_sound}
use owlpost.Server.Post.{Response, accepted}
use owlpost.Server.Post.Handler.{post_question}
use owlpost.Server.Post.Run.{start, accepted_once}
use owlpost.Server.Post.Success.{Success}
use owlpost.Server.Post.Unattended.{ForScheduler, auto_event}
use owlpost.Server.Post.Refusals.{Unchanged, post_question-refused}
use owlpost.Server.Outbox.{get_outbox, ack_outbox}
use owlpost.Server.Outbox.Acks.{
  IsOwn, Acked, get_outbox-IsOwn, ack_outbox-Acked, ack_outbox-refused,
}
use owlpost.Server.Tasks.{asked_by, replies_to, waiting_task}
use owlpost.Server.Tasks.Owners.{Holds, find_task-owner, find_task-waiting}
use owlpost.Tests.Data.{
  codec, floats, external, daemon, request, stored, disk_with, question, question_object, config,
}

abbrev answered : Response
answered = accepted "q1" working

abbrev after_first : AppState Record ℕ
after_first = (post_question ⦃f = floats⦄ ⦃e = external⦄ ⦃c = codec⦄ 1000000000 5 request daemon).1

accepts :
    (post_question ⦃f = floats⦄ ⦃e = external⦄ ⦃c = codec⦄ 1000000000 5 request daemon).0
    ≡ ok (accepted "q1" working)
unfolding post_question as_object check_header lookup lookup_str valid_id validate_question_body
    typed_parse parse_codes is_digit from_fields value days_from_civil FilePath-discrete
accepts = refl

accepted_once_example :
    (post_question ⦃f = floats⦄ ⦃e = external⦄ ⦃c = codec⦄ 1000000100 105 request after_first).0
    ≢ ok answered
accepted_once_example =
    accepted_once ⦃f = floats⦄ ⦃e = external⦄ ⦃c = codec⦄ 1000000000 5 request daemon answered
      accepts 1000000000 after_first start 1000000100 (omega arith) 105 request refl answered

abbrev queued : Spooled
queued = record { id = "q1"; peer = "bob"; state = "pending"; auto = true }

queues : after_first.events ≡ queued ∷ []
unfolding post_question as_object check_header lookup lookup_str valid_id validate_question_body
    typed_parse parse_codes is_digit from_fields value days_from_civil FilePath-discrete
queues = refl

auto_event_example : ForScheduler ⦃e = external⦄ 1000000000 request daemon queued
auto_event_example =
    auto_event ⦃f = floats⦄ ⦃e = external⦄ ⦃c = codec⦄ 1000000000 5 request daemon answered accepts
      queued queues refl

abbrev stranger_daemon : AppState Record ℕ
stranger_daemon = record daemon { contacts = some [] }

refuses :
    (post_question ⦃f = floats⦄ ⦃e = external⦄ ⦃c = codec⦄ 1000000000 5 request stranger_daemon).0
    ≡ err (api_error 403 "unknown peer")
unfolding post_question
refuses = refl

post_question-refused_example :
    Unchanged stranger_daemon
      (post_question ⦃f = floats⦄ ⦃e = external⦄ ⦃c = codec⦄ 1000000000 5 request stranger_daemon).1
post_question-refused_example =
    post_question-refused ⦃f = floats⦄ ⦃e = external⦄ ⦃c = codec⦄ 1000000000 5 request
      stranger_daemon (api_error 403 "unknown peer") refuses (λ e. omega (arith, e))

abbrev waiting : Disk Record
waiting = disk_with inbox "q1" (stored "question" "pending")

holds : Holds ⦃e = external⦄ ⦃c = codec⦄ inbox "q1" (asked_by ⦃e = external⦄ "bob") waiting
unfolding is_request FilePath-discrete get_in_spool
holds = record {
  rec = stored "question" "pending";
  payload = question;
  there = refl;
  parsed = refl;
  passes = refl;
}

find_task-owner_example :
    Holds ⦃e = external⦄ ⦃c = codec⦄ inbox "q1" (asked_by ⦃e = external⦄ "bob") waiting
    ⊎ ((aid : String) × Holds ⦃e = external⦄ ⦃c = codec⦄ outbox aid
          (replies_to ⦃e = external⦄ "bob" "q1")
          waiting)
    ⊎ Holds ⦃e = external⦄ ⦃c = codec⦄ done "q1" (asked_by ⦃e = external⦄ "bob") waiting
find_task-owner_example =
    find_task-owner ⦃e = external⦄ ⦃c = codec⦄ "bob" "q1" "q1-status" waiting
      (waiting_task ⦃e = external⦄ "q1" "q1-status" holds.rec holds.payload)
      (find_task-waiting ⦃e = external⦄ ⦃c = codec⦄ "bob" "q1" "q1-status" waiting holds)

abbrev replied : Disk Record
replied = disk_with outbox "a1" (stored "answer" "unacked")

shows : get_outbox ⦃e = external⦄ ⦃c = codec⦄ (some "bob") replied ≡ ok (("answer", "signed") ∷ [])
unfolding get_outbox Dir-discrete FilePath-discrete get_in_spool
shows = refl

get_outbox-IsOwn_example :
    All (IsOwn ⦃e = external⦄ ⦃c = codec⦄ "bob" replied) (("answer", "signed") ∷ [])
get_outbox-IsOwn_example =
    get_outbox-IsOwn ⦃e = external⦄ ⦃c = codec⦄ "bob" replied (("answer", "signed") ∷ []) shows

acks : (ack_outbox ⦃e = external⦄ ⦃c = codec⦄ (some "bob") "a1" replied).0 ≡ ok tt
unfolding ack_outbox FilePath-discrete
acks = refl

ack_outbox-Acked_example :
    Acked ⦃e = external⦄ ⦃c = codec⦄ "bob" "a1" replied
      (ack_outbox ⦃e = external⦄ ⦃c = codec⦄ (some "bob") "a1" replied).1
ack_outbox-Acked_example =
    ack_outbox-Acked ⦃e = external⦄ ⦃c = codec⦄ "bob" "a1" replied (λ r. refl) (λ p. refl) tt acks

denies : (ack_outbox ⦃e = external⦄ ⦃c = codec⦄ (some "eve") "a1" replied).0 ≡ err not_found
unfolding ack_outbox FilePath-discrete
denies = refl

ack_outbox-refused_example :
    (ack_outbox ⦃e = external⦄ ⦃c = codec⦄ (some "eve") "a1" replied).1 ≡ replied
ack_outbox-refused_example =
    ack_outbox-refused ⦃e = external⦄ ⦃c = codec⦄ "eve" "a1" replied not_found denies
      (λ e. omega (arith, e))

abbrev file_body : Map
file_body =
    entry "path" (str "src/a.rs") (entry "project" (str "web") (entry "ref" (str "main") empty))

body_is_valid : validate_content_body file_body config ≡ ok tt
unfolding validate_content_body lookup_str escapes_root malformed_ref get_in_config utf8_width
body_is_valid = refl

validate_content_body-StaysInside_example : StaysInside "src/a.rs"
unfolding lookup_str
validate_content_body-StaysInside_example =
    validate_content_body-StaysInside file_body config "src/a.rs" body_is_valid (inl refl)

is_valid : validate_request ⦃e = external⦄ (obj question_object) "bob" "me" config ≡ ok question
unfolding validate_request as_object check_header lookup lookup_str valid_id validate_question_body
    typed_parse
is_valid = refl

is_read : IsRead question_object question
unfolding lookup_str
is_read = record { id = refl; from = refl; to = refl; ts = refl }

validate_request_sound_example :
    (question.from ≡ "bob")
    × (question.to ≡ "me")
    × (valid_id (codes question.id) ≡ true)
    × (is_request question.kind ≡ true)
    × (matches question.kind question.body ≡ true)
validate_request_sound_example =
    validate_request_sound ⦃e = external⦄ question_object "bob" "me" config question is_read
      is_valid

abbrev spent : Bucket ℕ
spent = record { tokens = 0; last = 0 }

waits : (take ⦃f = floats⦄ 3600 0 spent).0 ≡ err 1
unfolding take
waits = refl
