-- ===== src/Server/Post/Handler.antt =====
-- src/server.rs: `post_question`, step by step over the daemon's state.
use owlpost.Prelude.{
  ℕ, String, Bool, false, not, ◌&&◌, ◌||◌, Option, none, some, List, [], ◌∷◌, ◌++◌, if◌then◌else◌,
}
use owlpost.Prelude.Results
use owlpost.Prelude.Results.{Result, ok, err, refuse_if, ok_or}
use owlpost.Prelude.Exec.{Exec, ◌>>=◌, ◌>>◌, pure, lift, continue, modify}
use owlpost.Envelope.{Payload}
use owlpost.Envelope.Task.{a2a_state}
use owlpost.Envelope.Time.{parse_rfc3339_to_unix}
use owlpost.Envelope.Replay.{SeenIds, is_fresh, is_seen, insert_seen}
use owlpost.Json.{Value}
use owlpost.Record.{Record, inbox}
use owlpost.Contacts.{Mode, Contact, find_contact, policy_for, mode_of}
use owlpost.Error.{Error}
use owlpost.External.{External}
use owlpost.Spool.{put, cache_get}
use owlpost.Spool.Files.{Codec, Disk}
use owlpost.Answer.Threads.{thread_known}
use owlpost.Server.Api.{ApiError, bad_request, unavailable, storage_error, require_peer}
use owlpost.Server.State.{F64, full, take, Spooled, AppState, bucket_of, set_bucket}
use owlpost.Server.Validate.{validate_request}
use owlpost.Server.Post.{
  Request, Response, cached, accepted, body_bytes, signature_header, check_signature, check_replay,
  record_state_for, may_read_cache, is_never, policy_in, rate_of, hash_of, has_context, new_record,
}

-- `map_err(ApiError::storage)`
abbrev pub stored : {A : Type 0} → Result Error A → Result ApiError A
stored (ok a) = ok a
stored (err e) = err storage_error

abbrev pub in_known_thread : (String → Bool) → Option String → Bool
in_known_thread known none = false
in_known_thread known (some context_id) = known context_id

abbrev rate_limited : ℕ → ApiError
rate_limited secs = record {
  status = 429;
  error = "rate limited";
  retry_after = some secs;
  state = none;
}

abbrev limited : Result ℕ (Unit {0}) → Result ApiError (Unit {0})
limited (ok _) = ok tt
limited (err secs) = err (rate_limited secs)

module _ {B N : Type 0} where
  -- The spool call, on the disk of the state.
  abbrev pub on_disk : Exec Error (Disk B) Unit → Exec ApiError (AppState B N) Unit
  on_disk m s = (stored (m s.disk).0, record s { disk = (m s.disk).1 })

  -- `SeenIds::save`: a write that fails leaves in the file what it got to.
  abbrev saved : Option SeenIds → Exec ApiError (AppState B N) Unit
  saved none s = (ok tt, record s { seen_file = s.seen })
  saved (some left) s = (err storage_error, record s { seen_file = left })

  -- `remember`: the id is in memory even when the file cannot be written.
  unfoldable pub remember : String → ℕ → Exec ApiError (AppState B N) Unit
  unfolding insert_seen
  remember id now s = saved s.save_fails (record s { seen = (insert_seen id now s.seen).0 })

  -- `route_new_record`, then `on_question_spooled`
  abbrev announce : Spooled → Exec ApiError (AppState B N) Unit
  announce event =
      modify (λ s. record s { routed = s.routed ++ event.id ∷ []; events = s.events ++ event ∷ [] })

  abbrev pub mode_in : String → AppState B N → Option Mode
  mode_in caller s = mode_of (policy_in caller s.contacts)

  -- The responder is off, or the policy is `never`.
  unfoldable pub gate : String → Exec ApiError (AppState B N) Unit
  unfolding policy_for
  gate caller s =
      (refuse_if (not s.config.responder.enabled || is_never (mode_in caller s)) unavailable, s)

module _ {B N : Type 0} ⦃f : F64 N⦄ where
  -- One token of the caller's bucket, which is made full at the first request.
  unfoldable pub take_token : String → N → Exec ApiError (AppState B N) Unit
  unfolding take full bucket_of set_bucket policy_for
  take_token caller clock s =
      let rate = rate_of (policy_in caller s.contacts) s.config in
      let (r, b) = take rate clock (bucket_of caller (full rate clock) s.buckets) in
      (limited r, record s { buckets = set_bucket caller b s.buckets })

module _ {B N : Type 0} ⦃e : External⦄ where
  abbrev pub check_payload : ℕ → AppState B N → String → Value → Result ApiError (String × Payload)
  check_payload now s caller value =
      Results.◌>>=◌ (validate_request value caller e.own_fingerprint s.config)
        λ (payload : Payload).
          Results.◌>>=◌ (check_replay now s.seen payload) λ payload'. ok (caller, payload')

  -- The checks up to the duplicate id; they change nothing.
  unfoldable pub check_request : ℕ → Request → AppState B N → Result ApiError (String × Payload)
  unfolding require_peer body_bytes signature_header find_contact validate_request
      parse_rfc3339_to_unix is_fresh is_seen
  check_request now request s = Results.◌>>=◌ (require_peer request.peer) λ caller.
      Results.◌>>=◌ (body_bytes request.upload) λ body.
        Results.◌>>=◌ (ok_or (e.parse_value body) (bad_request "body is not JSON")) λ value.
          Results.◌>>=◌ (signature_header request.signature) λ sig.
            Results.◌>>=◌ (ok_or s.contacts storage_error) λ (book : List Contact).
              Results.◌>>◌ (check_signature book caller body sig) (check_payload now s caller value)

module _ {B N : Type 0} where
  -- The end of an accepted request, with its state and whether the scheduler may answer it.
  unfoldable pub admit :
      ℕ → String → Payload → String × Bool → Exec ApiError (AppState B N) Response
  unfolding remember a2a_state
  admit now caller payload (state, auto) = do
    remember payload.id now
    announce (record { id = payload.id; peer = caller; state = state; auto = auto })
    pure (accepted payload.id (a2a_state state false).0)

module _ {B N : Type 0} ⦃e : External⦄ ⦃c : Codec B⦄ where
  -- The answer that the cache holds, where it may be used: not for a question with a context or in
  -- a thread that the daemon holds.
  unfoldable pub cached_answer :
      String → Payload → Option String → AppState B N → Result ApiError (Option Record)
  unfolding may_read_cache thread_known cache_get policy_for
  cached_answer caller payload none s = ok none
  cached_answer caller payload (some hash) s =
      if may_read_cache (mode_in caller s)
        && not (
            has_context payload.body
            || in_known_thread (λ cid. thread_known cid payload.id s.disk) payload.context_id)
      then stored (cache_get hash s.disk)
      else ok none

  -- The spooled request: its record, its id in the replay window, and the events.
  unfoldable pub spool_request :
      ℕ → Request → String → Payload → Option String → Exec ApiError (AppState B N) Response
  unfolding put new_record admit record_state_for policy_for
  spool_request now request caller payload hash s =
      continue
        (on_disk
          (put inbox payload.id (new_record now request caller payload (mode_in caller s) hash)) s)
        (λ _. admit now caller payload (record_state_for payload.kind (mode_in caller s)))

  -- A cached answer is sent, and the id of its question is remembered.
  abbrev pub after_lookup :
      ℕ
      → Request
      → String
      → Payload
      → Option String
      → Option Record
      → Exec ApiError (AppState B N) Response
  after_lookup now request caller payload hash (some rec) =
      remember payload.id now >> pure (cached rec.raw rec.sig)
  after_lookup now request caller payload hash none = spool_request now request caller payload hash

  unfoldable pub answer_or_spool :
      ℕ → Request → String → Payload → Exec ApiError (AppState B N) Response
  unfolding hash_of cached_answer remember spool_request
  answer_or_spool now request caller payload = do
    hash ← lift (hash_of payload.body)
    found ← λ s. (cached_answer caller payload hash s, s)
    after_lookup now request caller payload hash found

module _ {B N : Type 0} ⦃f : F64 N⦄ ⦃e : External⦄ ⦃c : Codec B⦄ where
  -- What follows the checks.
  abbrev pub after_checks :
      ℕ → N → Request → String → Payload → Exec ApiError (AppState B N) Response
  after_checks now clock request caller payload = do
    take_token caller clock
    gate caller
    answer_or_spool now request caller payload

  unfoldable pub post_question :
      (now : ℕ) (clock : N) → Request → Exec ApiError (AppState B N) Response
  unfolding check_request take_token gate answer_or_spool
  post_question now clock request = do
    checked ← λ s. (check_request now request s, s)
    after_checks now clock request checked.0 checked.1
