-- ===== src/Cli/Request.antt =====
-- src/cli/request.rs and src/cli/call.rs: `owl request` and `owl call`, from the resolved peer to the
-- record of the ask. Both send a request that the peer holds for the consent of its owner.
pub mod Opens
use owlpost.Prelude.{
  String, Bool, true, false, Option, none, some, List, [], ◌∷◌, ◌||◌, if◌then◌else◌,
}
use owlpost.Prelude.Results.{Result, ok, err}
use owlpost.Prelude.Exec.{Exec, ◌>>=◌, ◌>>◌, pure, raise, lift}
use owlpost.Json.{Value, Map, str, bool, obj, empty, insert}
use owlpost.Record.{Record, asks}
use owlpost.Contacts.{Contact}
use owlpost.Envelope.{Payload, new_content, new_tool_call}
use owlpost.Envelope.Signed.{Envelope}
use owlpost.Error.{Error, message}
use owlpost.Events.{push}
use owlpost.External.{External}
use owlpost.Spool.{put}
use owlpost.Spool.Files.{Codec, Disk}
use owlpost.Client.{
  Wire, SendOutcome, answered, accepted, refused, rate_limited, no_transport, send_question,
}
use owlpost.Cli.Ask.{Fresh, thread_for, sign_payload, ask_record, missing}

-- `Parsed` of src/cli/request.rs
pub record ParsedRequest : Type 0 where
  pub peer : String
  pub project : Option String
  pub path : Option String

abbrev file_positionals : (String → Bool) → String → List String → Result Error ParsedRequest
file_positionals blank peer (project ∷ path ∷ []) =
    if blank project || blank path
    then err (message "project and path must not be empty")
    else ok (record { peer = peer; project = some project; path = some path })
file_positionals blank peer _ = err (missing "missing <project> <path>")

abbrev rest_positionals :
    (String → Bool) → String → List String → Option String → Result Error ParsedRequest
rest_positionals blank peer [] (some memory) =
    ok (record { peer = peer; project = none; path = none })
rest_positionals blank peer (extra ∷ _) (some memory) = err (message "unexpected argument")
rest_positionals blank peer rest none = file_positionals blank peer rest

-- `parse_positionals` of src/cli/request.rs; `blank` tells whether a text is white space.
unfoldable pub request_positionals :
    (String → Bool) → List String → Option String → Result Error ParsedRequest
request_positionals blank [] memory = err (missing "missing <peer>")
request_positionals blank (peer ∷ rest) memory = rest_positionals blank peer rest memory

abbrev held_meta : Contact → Map
held_meta contact = insert "peer" (str contact.fingerprint) (insert "threaded" (bool true) empty)

-- The record of a request that the peer has taken, born with the event `kind`
unfoldable pub held_record : (now kind : String) → Contact → Envelope → Record
unfolding push insert ask_record
held_record now kind contact env =
    push now kind (some "human") none (ask_record now env "waiting" (obj (held_meta contact)))

-- A file or a memory entry that is asked for
pub record Wanted : Type 0 where
  pub project : Option String
  pub git_ref : Option String
  pub path : Option String
  pub memory : Option String

unfoldable pub asking_content :
    ⦃e : External⦄ → Fresh → Contact → Wanted → (thread : String) → Payload
unfolding new_content
asking_content ⦃e⦄ fresh contact wanted thread =
    record (new_content fresh.id fresh.now e.own_fingerprint contact.fingerprint wanted.project
      wanted.git_ref wanted.path wanted.memory) { context_id = some thread }

unfoldable pub asking_tool :
    ⦃e : External⦄
    → Fresh
    → Contact
    → (tool : String) → Map
    → Option String
    → (thread : String) → Payload
unfolding new_tool_call
asking_tool ⦃e⦄ fresh contact tool input project thread =
    record (new_tool_call fresh.id fresh.now e.own_fingerprint contact.fingerprint tool input
      project) { context_id = some thread }

module _ {B : Type 0} ⦃e : External⦄ ⦃w : Wire⦄ ⦃c : Codec B⦄ where
  -- The outcomes: a reply that comes at once breaks the protocol.
  unfoldable pub held_outcome :
      (now kind : String) → Contact → Envelope → SendOutcome → Exec Error (Disk B) String
  unfolding put held_record
  held_outcome now kind contact env (accepted id state) =
      put asks id (held_record now kind contact env) >> pure id
  held_outcome now kind contact env (answered answer _) = raise (message "replied inline")
  held_outcome now kind contact env refused = raise (message "unavailable")
  held_outcome now kind contact env (rate_limited _) = raise (message "rate limited")
  held_outcome now kind contact env (no_transport _) = raise (message "offline")

  abbrev pub send_held : (now kind : String) → Contact → Payload → Exec Error (Disk B) String
  send_held now kind contact payload =
      lift (send_question contact (sign_payload payload))
      >>= held_outcome now kind contact (sign_payload payload)

  -- `run` of src/cli/request.rs
  unfoldable pub request_content :
      Fresh → Contact → Wanted → Option String → Exec Error (Disk B) String
  unfolding asking_content sign_payload send_question held_outcome
  request_content fresh contact wanted reply_to d =
      (lift (thread_for fresh contact reply_to d) >>= λ (thread : String).
      send_held fresh.now "content-requested" contact (asking_content fresh contact wanted thread))
        d

  -- `run` of src/cli/call.rs
  unfoldable pub call_tool :
      Fresh
      → Contact
      → (tool : String) → (input : Map) → (project reply_to : Option String)
      → Exec Error (Disk B) String
  unfolding asking_tool sign_payload send_question held_outcome
  call_tool fresh contact tool input project reply_to d =
      (lift (thread_for fresh contact reply_to d) >>= λ (thread : String).
      send_held fresh.now "tool-requested" contact
        (asking_tool fresh contact tool input project thread))
        d
