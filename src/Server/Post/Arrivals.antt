-- ===== src/Server/Post/Arrivals.antt =====
-- src/server.rs: the record that an accepted request leaves, and the state that its kind and the
-- policy of its sender call for.
use owlpost.Prelude.{
  ℕ, String, ◌≡◌, ◌≢◌, refl, Bool, true, false, Option, none, some, ◌==◌, if◌then◌else◌,
}
use owlpost.Json.{get as get_field, get_str, as_str, str_of, insert, lookup}
use owlpost.Record.{Record, meta_object}
use owlpost.Contacts.{Mode}
use owlpost.Envelope.{Payload, Kind}
use owlpost.Events.{push}
use owlpost.Server.Post.{
  Request, body_text, sig_text, rfc3339, record_state_for, record_state, new_record,
}

-- The state of a new record, and whether the scheduler may answer it: files and tools wait for consent,
-- as does a question of a peer without a policy; a question of another peer is pending, and the
-- scheduler's where the policy is `auto`.
pub data Decision : Kind → Option Mode → (state : String) → (auto : Bool) → Type 0 where
  of_content : (m : Option Mode) → Decision Kind.content m "consent" false
  of_tool : (m : Option Mode) → Decision Kind.tool_call m "consent" false
  no_policy : {k : Kind} → k ≢ Kind.content → k ≢ Kind.tool_call → Decision k none "consent" false
  automatic :
      {k : Kind}
      → k ≢ Kind.content
      → k ≢ Kind.tool_call
      → Decision k (some Mode.auto) "pending" true
  by_hand :
      {k : Kind}
      → k ≢ Kind.content
      → k ≢ Kind.tool_call
      → Decision k (some Mode.manual) "pending" false
  denied :
      {k : Kind}
      → k ≢ Kind.content
      → k ≢ Kind.tool_call
      → Decision k (some Mode.never) "pending" false

abbrev Decided : Kind → Option Mode → Type 0
Decided k m = Decision k m (record_state_for k m).0 (record_state_for k m).1

record_state-Decided :
    {k : Kind}
    → k ≢ Kind.content
    → k ≢ Kind.tool_call
    → (m : Option Mode) → Decision k m (record_state m).0 (record_state m).1
unfolding record_state
record_state-Decided h h' none = no_policy h h'
record_state-Decided h h' (some Mode.auto) = automatic h h'
record_state-Decided h h' (some Mode.manual) = by_hand h h'
record_state-Decided h h' (some Mode.never) = denied h h'

record_state_for-Decided : (k : Kind) (m : Option Mode) → Decided k m
unfolding record_state_for
record_state_for-Decided Kind.content m = of_content m
record_state_for-Decided Kind.tool_call m = of_tool m
record_state_for-Decided Kind.question m = record_state-Decided (λ e. cc) (λ e. cc) m
record_state_for-Decided Kind.answer m = record_state-Decided (λ e. cc) (λ e. cc) m
record_state_for-Decided Kind.content_reply m = record_state-Decided (λ e. cc) (λ e. cc) m
record_state_for-Decided Kind.tool_reply m = record_state-Decided (λ e. cc) (λ e. cc) m

-- The record of a request: its body and signature as they came, its sender, and the state that is
-- decided for it.
pub record IsSpooled (now : ℕ) (request : Request) (caller : String) (k : Kind) (m : Option Mode)
    (auto : Bool) (rec : Record) : Type 0 where
  pub raw : rec.raw ≡ body_text request.upload
  pub sig : rec.sig ≡ sig_text request.signature
  pub state : rec.state ≡ (record_state_for k m).0
  pub decision : Decision k m rec.state auto
  pub peer : get_str "peer" rec.meta ≡ some caller
  pub unseen : rec.seen ≡ false
  pub no_draft : rec.draft ≡ none
  pub received_at : rec.received_at ≡ rfc3339 now

module _ (now : ℕ) (request : Request) (caller : String) (k : Kind) (m : Option Mode)
    (auto : Bool) where
  held_if-IsSpooled :
      (t : Bool) (rec held : Record)
      → IsSpooled now request caller k m auto rec
      → IsSpooled now request caller k m auto held
      → IsSpooled now request caller k m auto (if t then held else rec)
  held_if-IsSpooled true rec held h h' = h'
  held_if-IsSpooled false rec held h h' = h

pub new_record-IsSpooled :
    (now : ℕ) (request : Request) (caller : String) (payload : Payload) (m : Option Mode)
    (hash : Option String)
    → IsSpooled now request caller payload.kind m
        (record_state_for payload.kind m).1
        (new_record now request caller payload m hash)
unfolding new_record push get_str get_field lookup insert meta_object as_str str_of
new_record-IsSpooled now request caller payload m none =
    held_if-IsSpooled now request caller payload.kind m _
      ((record_state_for payload.kind m).0 == "consent") _ _
      (record {
        raw = refl;
        sig = refl;
        state = refl;
        decision = record_state_for-Decided payload.kind m;
        peer = refl;
        unseen = refl;
        no_draft = refl;
        received_at = refl;
      })
      (record {
        raw = refl;
        sig = refl;
        state = refl;
        decision = record_state_for-Decided payload.kind m;
        peer = refl;
        unseen = refl;
        no_draft = refl;
        received_at = refl;
      })
new_record-IsSpooled now request caller payload m (some h) =
    held_if-IsSpooled now request caller payload.kind m _
      ((record_state_for payload.kind m).0 == "consent") _ _
      (record {
        raw = refl;
        sig = refl;
        state = refl;
        decision = record_state_for-Decided payload.kind m;
        peer = refl;
        unseen = refl;
        no_draft = refl;
        received_at = refl;
      })
      (record {
        raw = refl;
        sig = refl;
        state = refl;
        decision = record_state_for-Decided payload.kind m;
        peer = refl;
        unseen = refl;
        no_draft = refl;
        received_at = refl;
      })
