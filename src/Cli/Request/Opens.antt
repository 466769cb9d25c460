-- ===== src/Cli/Request/Opens.antt =====
-- src/cli/request.rs, src/cli/call.rs and src/pull.rs: a request that the peer holds for consent is one
-- that the daemon pulls for.
use owlpost.Prelude.{String, subst, ◌≡◌, refl, true, Option, some}
use owlpost.Prelude.Results.{Result, ok, err, ok-injective}
use owlpost.Prelude.Exec.{Exec, continue, lift}
use owlpost.Json.{Map, lookup, insert, get as get_field, get_str, as_str, str_of}
use owlpost.Record.{Record, asks, meta_object}
use owlpost.Contacts.{Contact}
use owlpost.Envelope.{Payload, new_content, new_tool_call}
use owlpost.Error.{Error}
use owlpost.Events.{push}
use owlpost.External.{External}
use owlpost.Spool.{get, put}
use owlpost.Spool.Files.{Codec, Disk}
use owlpost.Spool.Changes.{get-of_put, Readable}
use owlpost.Client.{
  Wire, SendOutcome, answered, accepted, refused, rate_limited, no_transport, send_question,
}
use owlpost.Pull.{OpenAsk, open_ask, or_text}
use owlpost.Pull.Ingest.{Laws}
use owlpost.Cli.Ask.{Fresh, ask_record, sign_payload, thread_for}
use owlpost.Cli.Ask.Opens.{same_or}
use owlpost.Cli.Request.{
  Wanted, asking_content, asking_tool, held_record, held_outcome, send_held, request_content,
  call_tool,
}

abbrev open_request : Contact → (id path : String) → OpenAsk
open_request contact id path = record {
  id = id;
  peer = contact.fingerprint;
  hash = "";
  path = path;
  threaded = true;
}

-- serde_json reads back a request that it wrote.
abbrev pub ReadsBack : ⦃e : External⦄ → Payload → Type 0
ReadsBack ⦃e⦄ payload = e.parse_payload (e.payload_text payload) ≡ some payload

-- A stored request opens with the path `path`.
abbrev Opens : ⦃e : External⦄ → (now kind : String) → Contact → Payload → (path : String) → Type 0
Opens now kind contact payload path =
    (id : String)
    → open_ask (id, held_record now kind contact (sign_payload payload))
      ≡ some (open_request contact id path)

asking_content-Opens :
    ⦃e : External⦄ (fresh : Fresh) (kind : String) (contact : Contact) (wanted : Wanted)
    (thread : String)
    → ReadsBack (asking_content fresh contact wanted thread)
    → Opens fresh.now kind contact
        (asking_content fresh contact wanted thread)
        (or_text "-" wanted.path)
unfolding open_ask push ask_record held_record sign_payload asking_content new_content get_field
    get_str lookup insert as_str str_of meta_object
asking_content-Opens fresh kind contact wanted thread parses id =
    rw (parses, same_or contact.fingerprint) refl

asking_tool-Opens :
    ⦃e : External⦄ (fresh : Fresh) (kind : String) (contact : Contact) (tool : String) (input : Map)
    (project : Option String) (thread : String)
    → ReadsBack (asking_tool fresh contact tool input project thread)
    → Opens fresh.now kind contact (asking_tool fresh contact tool input project thread) "-"
unfolding open_ask push ask_record held_record sign_payload asking_tool new_tool_call get_field
    get_str lookup insert as_str str_of meta_object
asking_tool-Opens fresh kind contact tool input project thread parses id =
    rw (parses, same_or contact.fingerprint) refl

-- The request stands in `asks`, put to the contact, with no hash and as a part of a thread.
pub record IsHeld {B : Type 0} ⦃e : External⦄ ⦃c : Codec B⦄ (contact : Contact) (id : String)
    (d : Disk B) : Type 0 where
  pub rec : Record
  pub path : String
  pub stored : get asks id d ≡ ok (some rec)
  pub opens : open_ask (id, rec) ≡ some (open_request contact id path)

module _ {B : Type 0} ⦃e : External⦄ ⦃w : Wire⦄ ⦃c : Codec B⦄ (contact : Contact) where
  record Holds (r : Result Error String × Disk B) : Type 0 where
    when_ok : (id : String) → r.0 ≡ ok id → IsHeld contact id r.1

  err-Holds : (e : Error) (d : Disk B) → Holds (err e, d)
  err-Holds e d = record { when_ok = λ id h. cc }

  continue-Holds :
      {A : Type 0} (r : Result Error A × Disk B) (k : A → Exec Error (Disk B) String)
      → ((a : A) → r.0 ≡ ok a → Holds (k a r.1))
      → Holds (continue r k)
  continue-Holds (ok a, s) k h = h a refl
  continue-Holds (err e, s) k h = err-Holds e s

  module _ (laws : Laws c) (d : Disk B) (readable : Readable d) where
    held_outcome-Holds :
        (now kind path : String) (payload : Payload)
        → Opens now kind contact payload path
        → (o : SendOutcome) → Holds (held_outcome now kind contact (sign_payload payload) o d)
    unfolding held_outcome
    held_outcome-Holds now kind path payload opens (accepted id state) =
        continue-Holds (put asks id (held_record now kind contact (sign_payload payload)) d) _
          (λ u worked. record {
            when_ok = λ id' h.
                subst
                  (λ (x : String).
                    IsHeld contact x
                      (put asks id (held_record now kind contact (sign_payload payload)) d).1)
                  (ok-injective h)
                  (record {
                    rec = held_record now kind contact (sign_payload payload);
                    path = path;
                    stored = get-of_put asks id _ d u (laws _) readable worked;
                    opens = opens id;
                  });
          })
    held_outcome-Holds now kind path payload opens (answered answer env) = err-Holds _ d
    held_outcome-Holds now kind path payload opens refused = err-Holds _ d
    held_outcome-Holds now kind path payload opens (rate_limited s) = err-Holds _ d
    held_outcome-Holds now kind path payload opens (no_transport errors) = err-Holds _ d

    send_held-Holds :
        (now kind path : String) (payload : Payload)
        → Opens now kind contact payload path
        → Holds (send_held now kind contact payload d)
    send_held-Holds now kind path payload opens =
        continue-Holds (lift (send_question contact (sign_payload payload)) d) _
          (λ o _. held_outcome-Holds now kind path payload opens o)

    request_content-Holds :
        (fresh : Fresh) (wanted : Wanted) (reply_to : Option String)
        → ((thread : String) → ReadsBack (asking_content fresh contact wanted thread))
        → Holds (request_content fresh contact wanted reply_to d)
    unfolding request_content
    request_content-Holds fresh wanted reply_to parses =
        continue-Holds (lift (thread_for fresh contact reply_to d) d) _ (λ thread _.
          send_held-Holds fresh.now "content-requested" (or_text "-" wanted.path)
            (asking_content fresh contact wanted thread)
            (asking_content-Opens fresh "content-requested" contact wanted thread (parses thread)))

    call_tool-Holds :
        (fresh : Fresh) (tool : String) (input : Map) (project reply_to : Option String)
        → ((thread : String) → ReadsBack (asking_tool fresh contact tool input project thread))
        → Holds (call_tool fresh contact tool input project reply_to d)
    unfolding call_tool
    call_tool-Holds fresh tool input project reply_to parses =
        continue-Holds (lift (thread_for fresh contact reply_to d) d) _ (λ thread _.
          send_held-Holds fresh.now "tool-requested" "-"
            (asking_tool fresh contact tool input project thread)
            (asking_tool-Opens fresh "tool-requested" contact tool input project thread
              (parses thread)))

    pub request_content-IsHeld :
        (fresh : Fresh) (wanted : Wanted) (reply_to : Option String)
        → ((thread : String) → ReadsBack (asking_content fresh contact wanted thread))
        → (id : String) → (request_content fresh contact wanted reply_to d).0 ≡ ok id
        → IsHeld contact id (request_content fresh contact wanted reply_to d).1
    request_content-IsHeld fresh wanted reply_to parses id =
        (request_content-Holds fresh wanted reply_to parses).when_ok id

    -- Where `owl call` reports that a tool call was taken, the call stands in `asks` under its id, and
    -- the pull loop reads that record as an open ask put to this contact, with no hash and in a
    -- thread. That no read fails and that serde_json reads back the records and the call that it wrote
    -- are hypotheses.
    pub call_tool-IsHeld :
        (fresh : Fresh) (tool : String) (input : Map) (project reply_to : Option String)
        → ((thread : String) → ReadsBack (asking_tool fresh contact tool input project thread))
        → (id : String) → (call_tool fresh contact tool input project reply_to d).0 ≡ ok id
        → IsHeld contact id (call_tool fresh contact tool input project reply_to d).1
    call_tool-IsHeld fresh tool input project reply_to parses id =
        (call_tool-Holds fresh tool input project reply_to parses).when_ok id
