-- ===== src/Pull/Loop.antt =====
-- src/pull.rs: one pull over every responder, and the expiry of the outbox.
pub mod Waits
pub mod Closes
use owlpost.Prelude.{
  ℕ, ◌+◌, ◌-◌, ◌*◌, suc, String, Bool, true, false, not, ◌&&◌, Option, none, some, List, [], ◌∷◌,
  ◌++◌, ◌==◌, if◌then◌else◌, keep, map, length, leb, first,
}
use Prim.Native.String.{compare}
use Prim.Native.Nat.{Ordering}
use owlpost.Prelude.Results
use owlpost.Prelude.Results.{Result, ok, err}
use owlpost.Prelude.Exec.{Exec}
use owlpost.Record.{Record, Dir, outbox, done}
use owlpost.Error.{Error, message}
use owlpost.Config.{Config}
use owlpost.Envelope.Signed.{Envelope}
use owlpost.Envelope.Time.{parse_rfc3339_to_unix}
use owlpost.External.{External}
use owlpost.Contacts.{Contact, find_contact}
use owlpost.Client.{Wire, Task, fetch_outbox, fetch_task, is_rejected}
use owlpost.Spool.{Entry, list_lenient}
use owlpost.Spool.Files.{Codec, Disk}
use owlpost.Route.{Routes, Outside}
use owlpost.Route.Wakes.{route}
use owlpost.Pull.{
  OpenAsk, Ingested, Verdict, ingested, forged, unrelated, open_asks, ingest_envelope, close,
  close_declined, note_task_state,
}
use owlpost.Pull.Liveness.{Liveness, should_skip, record_probe}

-- `DaemonEvent`, as far as the pull loop sends it
pub data PullEvent : Type 0 where
  answer_event : (id peer path : String) → PullEvent
  declined_event : (id peer : String) → PullEvent

-- `PullStatus`; its time is the clock's.
pub record PullStatus : Type 0 where
  pub open_asks : ℕ
  pub peers_probed : ℕ

-- What a pull changes: the spool, the routings, the liveness cache, the events sent, the asks that are
-- still open, and the responders contacted so far.
pub record PullState (B : Type 0) : Type 0 where
  pub disk : Disk B
  pub routes : Routes
  pub liveness : Liveness
  pub events : List PullEvent
  pub still_open : List OpenAsk
  pub probed : ℕ

-- `BTreeMap::entry` on the responders
unfoldable pub insert_peer : String → List String → List String
insert_peer p [] = p ∷ []
insert_peer p (q ∷ qs) = elim (compare p q) [
  | Ordering.lt ↦ p ∷ q ∷ qs
  | Ordering.eq ↦ q ∷ qs
  | Ordering.gt ↦ q ∷ insert_peer p qs
]

-- The keys of `by_peer`
unfoldable pub peers_of : List OpenAsk → List String
unfolding insert_peer
peers_of [] = []
peers_of (ask ∷ rest) = insert_peer ask.peer (peers_of rest)

-- `open.remove`
abbrev pub without : String → List OpenAsk → List OpenAsk
without id l = keep (λ (ask : OpenAsk). not (ask.id == id)) l

abbrev pub asks_of : String → List OpenAsk → List String
asks_of peer l = map (λ (ask : OpenAsk). ask.id) (keep (λ (ask : OpenAsk). ask.peer == peer) l)

module _ {B : Type 0} where
  abbrev pub after_close :
      String → String → Result Error (Unit {0}) × Disk B → PullState B → PullState B
  after_close peer id (ok _, d) s = record s {
    disk = d;
    still_open = without id s.still_open;
    events = s.events ++ declined_event id peer ∷ [];
  }
  after_close peer id (err _, d) s = record s { disk = d }

  abbrev pub begin : List OpenAsk → PullState B → PullState B
  begin asks s = record s { still_open = asks; probed = 0 }

  abbrev pub status_of : PullState B → PullStatus
  status_of s = record { open_asks = length s.still_open; peers_probed = s.probed }

module _ {B : Type 0} ⦃e : External⦄ ⦃w : Wire⦄ ⦃c : Codec B⦄ (o : Outside) (config : Option Config)
    (now : String) (instant : ℕ) where
  abbrev routed : String → Disk B → Routes → Routes
  routed id d r = elim config [ none ↦ r | some cfg ↦ (route o cfg id d r).1 ]

  -- What follows an envelope: an answer is routed to a session and reported.
  abbrev pub after_ingest : String → Result Error Verdict × Disk B → PullState B → PullState B
  after_ingest peer (ok (ingested ing), d) s = record s {
    disk = d;
    routes = routed ing.answer.id d s.routes;
    still_open = without ing.ask.id s.still_open;
    events = s.events ++ answer_event ing.ask.id peer ing.ask.path ∷ [];
  }
  after_ingest peer (_, d) s = record s { disk = d }

  unfoldable pub pull_envelope : Contact → String → Envelope → PullState B → PullState B
  pull_envelope contact peer env s =
      after_ingest peer (ingest_envelope now contact s.still_open env s.disk) s

  unfoldable pub pull_envelopes : Contact → String → List Envelope → PullState B → PullState B
  unfolding pull_envelope
  pull_envelopes contact peer [] s = s
  pull_envelopes contact peer (env ∷ envs) s =
      pull_envelopes contact peer envs (pull_envelope contact peer env s)

  abbrev pub after_task : String → String → Result Error (Option Task) → PullState B → PullState B
  after_task peer id (ok (some task)) s =
      if is_rejected task
      then after_close peer id (close_declined now id s.disk) s
      else record s { disk = note_task_state now id task s.disk }
  after_task peer id _ s = s

  unfoldable pub pull_tasks : Contact → String → List String → PullState B → PullState B
  pull_tasks contact peer [] s = s
  pull_tasks contact peer (id ∷ ids) s =
      pull_tasks contact peer ids (after_task peer id (fetch_task contact id) s)

  -- A responder's outbox, and then where its open asks stand.
  abbrev pub pull_outbox :
      Contact → String → Result Error (List Envelope) → PullState B → PullState B
  pull_outbox contact peer (err _) s = record s {
    liveness = record_probe peer false instant s.liveness;
    probed = s.probed + 1;
  }
  pull_outbox contact peer (ok items) s =
      let s1 = pull_envelopes contact peer items (record s {
        liveness = record_probe peer true instant s.liveness;
        probed = s.probed + 1;
      }) in
      pull_tasks contact peer (asks_of peer s1.still_open) s1

  abbrev pub pull_contact : String → Option Contact → PullState B → PullState B
  pull_contact peer none s = s
  pull_contact peer (some contact) s =
      if should_skip s.liveness peer instant
      then s
      else pull_outbox contact peer (fetch_outbox contact) s

  unfoldable pub pull_peers : List Contact → List String → PullState B → PullState B
  pull_peers book [] s = s
  pull_peers book (peer ∷ peers) s =
      pull_peers book peers (pull_contact peer (find_contact peer book) s)

  abbrev pub pull_book :
      Result Error (List OpenAsk)
      → Option (List Contact)
      → PullState B
      → Result Error PullStatus × PullState B
  pull_book (err x) contacts s = (err x, s)
  pull_book (ok asks) none s = (err (message "loading the contacts"), s)
  pull_book (ok asks) (some book) s =
      let s' = pull_peers book (peers_of asks) (begin asks s) in (ok (status_of s'), s')

  -- `pull_once`, with what `ContactBook::load` and `Config::load` return
  unfoldable pub pull_once : Option (List Contact) → Exec Error (PullState B) PullStatus
  pull_once contacts s = pull_book (open_asks s.disk) contacts s

-- One record of the loop of `expire_outbox`: what it adds to the count, and the disk.
abbrev is_expired : (ttl_days now_unix : ℕ) → Option ℕ → Bool
is_expired ttl_days now_unix none = false
is_expired ttl_days now_unix (some received) = not (leb (now_unix - received) (ttl_days * 86400))

module _ {B : Type 0} ⦃c : Codec B⦄ (now : String) (ttl_days now_unix : ℕ) where
  abbrev counted : ℕ → Result Error (Unit {0}) × Disk B → ℕ × Disk B
  counted n (ok _, d) = (n + 1, d)
  counted n (err _, d) = (n, d)

  unfoldable pub expire_one : Entry → ℕ × Disk B → ℕ × Disk B
  expire_one (id, rec) (n, d) =
      if is_expired ttl_days now_unix (parse_rfc3339_to_unix rec.received_at)
      then counted n (close now outbox id "expired" "expired" none d)
      else (n, d)

  unfoldable pub expire_each : List Entry → ℕ × Disk B → ℕ × Disk B
  expire_each [] r = r
  expire_each (entry ∷ entries) r = expire_each entries (expire_one entry r)

  abbrev expire_listed : Result Error (List Entry) → Exec Error (Disk B) ℕ
  expire_listed (err x) d = (err x, d)
  expire_listed (ok entries) d = let r = expire_each entries (0, d) in (ok r.0, r.1)

  -- `expire_outbox`
  unfoldable pub expire_outbox : Exec Error (Disk B) ℕ
  expire_outbox d = expire_listed (list_lenient outbox d) d

module _ {B : Type 0} ⦃e : External⦄ ⦃w : Wire⦄ ⦃c : Codec B⦄ where
  -- `tick`: the expiry, then the pull; an error of either is only logged. What it returns goes into
  -- `daemon.status`, if anything does.
  unfoldable pub tick :
      Outside
      → Option Config
      → Option (List Contact)
      → (now : String) (ttl_days now_unix instant : ℕ) → PullState B
      → Option PullStatus × PullState B
  tick o config contacts now ttl_days now_unix instant s =
      let expired = (expire_outbox now ttl_days now_unix s.disk).1 in
      let pulled = pull_once o config now instant contacts (record s { disk = expired }) in
      (elim pulled.0 [ ok status ↦ some status | err _ ↦ none ], pulled.1)
