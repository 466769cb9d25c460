-- ===== src/Server/Outbox.antt =====
-- src/server.rs: `GET /v1/outbox` and `POST /v1/outbox/{id}/ack`.
pub mod Acks
use owlpost.Prelude.{
  String, Bool, true, false, not, Option, none, some, List, [], ◌∷◌, ◌==◌, if◌then◌else◌, keep, map,
  codes,
}
use owlpost.Prelude.Results
use owlpost.Prelude.Results.{Result, ok, err}
use owlpost.Prelude.Exec.{Exec, continue}
use owlpost.Record.{Record, Dir, outbox, done}
use owlpost.Envelope.{Payload, is_reply}
use owlpost.Error.{Error}
use owlpost.External.{External}
use owlpost.Spool.{Entry, get, list_lenient, move_to, set_state}
use owlpost.Spool.Files.{Codec, Disk}
use owlpost.Answer.{is_text}
use owlpost.Server.Api.{ApiError, not_found, require_peer}
use owlpost.Server.Validate.{valid_id}
use owlpost.Server.Post.Handler.{stored}

abbrev recipient : Option Payload → Option String
recipient none = none
recipient (some p) = if is_reply p.kind then some p.to else none

-- `payload_to`: the recipient of a reply
unfoldable pub payload_to : ⦃e : External⦄ → Record → Option String
unfolding is_reply
payload_to ⦃e⦄ rec = recipient (e.parse_payload rec.raw)

abbrev for_caller : ⦃e : External⦄ → String → Entry → Bool
for_caller caller entry = is_text caller (payload_to entry.1)

abbrev pub item : Entry → String × String
item entry = (entry.1.raw, entry.1.sig)

-- The reply that the caller may acknowledge; a file that cannot be read is nobody's.
abbrev acknowledged :
    ⦃e : External⦄ → String → Result Error (Option Record) → Result ApiError Record
acknowledged caller (ok (some rec)) =
    if is_text caller (payload_to rec) then ok rec else err not_found
acknowledged caller _ = err not_found

abbrev storing :
    {B : Type 0} → Result Error (Unit {0}) × Disk B → Result ApiError (Unit {0}) × Disk B
storing (r, d) = (stored r, d)

module _ {B : Type 0} ⦃e : External⦄ ⦃c : Codec B⦄ where
  unfoldable pub get_outbox : Option String → Disk B → Result ApiError (List (String × String))
  unfolding require_peer list_lenient payload_to
  get_outbox peer d = Results.◌>>=◌ (require_peer peer) λ caller.
      Results.◌>>=◌ (stored (list_lenient outbox d))
        λ (entries : List Entry). ok (map item (keep (for_caller caller) entries))

  -- The move, then the state; both errors are errors of the storage.
  abbrev move_and_mark : String → Exec Error (Disk B) Unit
  move_and_mark id d = continue (move_to outbox id done d) (λ _. set_state done id "acked")

  unfoldable pub may_ack : Option String → String → Disk B → Result ApiError Record
  unfolding require_peer valid_id get payload_to
  may_ack peer id d = Results.◌>>=◌ (require_peer peer) λ caller.
      if not (valid_id (codes id)) then err not_found else acknowledged caller (get outbox id d)

  unfoldable pub ack_outbox : Option String → String → Exec ApiError (Disk B) Unit
  unfolding may_ack move_to set_state
  ack_outbox peer id d = continue (may_ack peer id d, d) (λ _ d'. storing (move_and_mark id d'))
