-- ===== src/Pull/Loop/Closes.antt =====
-- src/pull.rs: what a whole pull does to an ask.
use owlpost.Prelude.{
  ℕ, ◌+◌, String, String_discrete, ◌≡◌, ◌≢◌, ◌⊎◌, inl, inr, refl, sym, ap, ◌∙◌, Bool, true, false,
  Option, none, some, List, [], ◌∷◌, if◌then◌else◌, All, Bool-cases,
}
use owlpost.Prelude.Results.{Result, ok, err}
use owlpost.Record.{Record, asks, done}
use owlpost.Error.{Error}
use owlpost.Config.{Config}
use owlpost.Envelope.Signed.{Envelope}
use owlpost.External.{External}
use owlpost.Contacts.{Contact, find_contact}
use owlpost.Client.{Wire, Task, fetch_outbox, fetch_task, is_rejected}
use owlpost.Spool.{get, push_event}
use owlpost.Spool.Files.{Codec, Disk}
use owlpost.Spool.Changes.{Readable}
use owlpost.Spool.Others.{
  IsThere, update-IsThere, update-faults, close-faults, get-close_ne, dir_apart, id_apart,
}
use owlpost.Route.{Outside}
use owlpost.Pull.{
  OpenAsk, Verdict, ingested, forged, unrelated, open_asks, ingest_envelope, close, close_declined,
  note_task_state,
}
use owlpost.Pull.Asked.{IsAskOf, push-IsAskOf}
use owlpost.Pull.Ingest.{Laws, StaysInside, ingest_envelope-Effect}
use owlpost.Pull.Liveness.{should_skip, record_probe}
use owlpost.Pull.Loop.{
  PullState, pull_envelope, pull_envelopes, pull_tasks, pull_outbox, pull_contact, pull_peers,
  pull_once, pull_book, after_ingest, after_close, after_task, asks_of, peers_of, begin,
}
use owlpost.Pull.Loop.Waits.{
  Any, Replies, Reason, replied, declined, All-without, ingest_envelope-faults, IsOwned, Waits,
  Readable-of, first-owned, find_contact-fingerprint, DeclinedBy, asks_of-owned,
}

-- The replies that the contacts send have ids that are no paths.
abbrev pub SendInside : ⦃e : External⦄ ⦃w : Wire⦄ → Type 0
SendInside =
    (contact : Contact) (items : List Envelope)
    → fetch_outbox contact ≡ ok items
    → All StaysInside items

module _ {B : Type 0} ⦃e : External⦄ ⦃w : Wire⦄ ⦃c : Codec B⦄ (o : Outside) (config : Option Config)
    (now : String) (instant : ℕ) (laws : Laws c) (inside : SendInside) (book : List Contact)
    (ask : Record) (peer id : String) where
  abbrev Ends : PullState B → Type 0
  Ends s = Waits ask peer id s ⊎ Reason book peer id

  module _ (its : String) (contact : Contact) (known : find_contact its book ≡ some contact) where
    -- One envelope: the ask waits on, or the envelope is a signed reply of its responder.
    abbrev AfterEnvelope : Envelope → PullState B → Type 0
    AfterEnvelope env s = Waits ask peer id s ⊎ ((its ≡ peer) × Replies contact id env)

    after_ingest-Waits :
        (r : Result Error Verdict × Disk B) (s : PullState B)
        → Readable r.1
        → IsThere (IsAskOf id ask) asks id r.1
        → All (IsOwned peer id) s.still_open
        → Waits ask peer id (after_ingest o config now instant its r s)
    after_ingest-Waits (ok (ingested ing), d) s readable there owned = record {
      readable = readable;
      there = there;
      owned = All-without (IsOwned peer id) ing.ask.id s.still_open owned;
    }
    after_ingest-Waits (ok forged, d) s readable there owned = record {
      readable = readable;
      there = there;
      owned = owned;
    }
    after_ingest-Waits (ok unrelated, d) s readable there owned = record {
      readable = readable;
      there = there;
      owned = owned;
    }
    after_ingest-Waits (err x, d) s readable there owned = record {
      readable = readable;
      there = there;
      owned = owned;
    }

    pull_envelope-Ends :
        (env : Envelope) (s : PullState B)
        → StaysInside env
        → Waits ask peer id s
        → AfterEnvelope env (pull_envelope o config now instant contact its env s)
    unfolding pull_envelope
    pull_envelope-Ends env s stays v =
        let r = ingest_envelope now contact s.still_open env s.disk in
        let readable =
          Readable-of s.disk r.1 (ingest_envelope-faults now contact s.still_open env s.disk)
            v.readable in
        elim (ingest_envelope-Effect now contact laws s.still_open env s.disk v.readable stays id) [
          | inl kept ↦
              inl (after_ingest-Waits r s readable (v.there.0, kept ∙ v.there.1, v.there.2) v.owned)
          | inr closed ↦ inr (
            sym (find_contact-fingerprint its book contact known)
                ∙ sym closed.own
                ∙ first-owned peer id s.still_open closed.ask v.owned closed.found,
            record { answer = closed.answer; signed = closed.signed; replies = closed.replies },
          )
        ]

    pull_envelopes-Ends :
        (envs : List Envelope) (s : PullState B)
        → All StaysInside envs
        → Waits ask peer id s
        → Waits ask peer id (pull_envelopes o config now instant contact its envs s)
          ⊎ ((its ≡ peer) × Any (Replies contact id) envs)
    unfolding pull_envelopes
    pull_envelopes-Ends [] s stay v = inl v
    pull_envelopes-Ends (env ∷ envs) s stay v = elim (pull_envelope-Ends env s stay.0 v) [
      | inr (own, reply) ↦ inr (own, inl reply)
      | inl waits ↦
          elim (pull_envelopes-Ends envs (pull_envelope o config now instant contact its env s)
            stay.1 waits) [ inl still ↦ inl still | inr (own, reply) ↦ inr (own, inr reply) ]
    ]

    after_close-Waits :
        (i : String) (r : Result Error (Unit {0}) × Disk B) (s : PullState B)
        → Readable r.1
        → IsThere (IsAskOf id ask) asks id r.1
        → All (IsOwned peer id) s.still_open
        → Waits ask peer id (after_close its i r s)
    after_close-Waits i (ok u, d) s readable there owned = record {
      readable = readable;
      there = there;
      owned = All-without (IsOwned peer id) i s.still_open owned;
    }
    after_close-Waits i (err x, d) s readable there owned = record {
      readable = readable;
      there = there;
      owned = owned;
    }

    close_declined-Waits :
        (i : String) (s : PullState B)
        → i ≢ id
        → Waits ask peer id s
        → Waits ask peer id (after_close its i (close_declined now i s.disk) s)
    unfolding close_declined close
    close_declined-Waits i s apart v =
        after_close-Waits i (close_declined now i s.disk) s
          (Readable-of s.disk (close_declined now i s.disk).1
            (close-faults now asks i done "declined" "declined" (some "peer") none s.disk (λ e. cc))
            v.readable)
          (
            v.there.0,
            get-close_ne now asks i done "declined" "declined" (some "peer") none s.disk asks id
                  (λ e. cc) (id_apart (λ e. apart (sym e))) (dir_apart (λ e. cc))
                ∙ v.there.1,
            v.there.2,
          )
          v.owned

    note-Waits :
        (i : String) (task : Task) (s : PullState B)
        → Waits ask peer id s
        → Waits ask peer id (record s { disk = note_task_state now i task s.disk })
    unfolding note_task_state push_event
    note-Waits i task s v = record {
      readable =
          Readable-of s.disk (note_task_state now i task s.disk) (update-faults asks i _ s.disk)
            v.readable;
      there =
          update-IsThere (IsAskOf id ask) asks id _ s.disk laws (push-IsAskOf id ask now _ _ _)
            v.readable i v.there;
      owned = v.owned;
    }

    after_task-Ends :
        (i : String) (r : Result Error (Option Task)) (s : PullState B)
        → fetch_task contact i ≡ r
        → (i ≡ id → its ≡ peer)
        → Waits ask peer id s
        → Waits ask peer id (after_task o config now instant its i r s)
          ⊎ DeclinedBy its peer id contact
    after_task-Ends i (err x) s e own v = inl v
    after_task-Ends i (ok none) s e own v = inl v
    after_task-Ends i (ok (some task)) s e own v = elim (Bool-cases (is_rejected task)) [
      | inr open_still ↦ inl (rw open_still (note-Waits i task s v))
      | inl rejected ↦ elim (String_discrete i id) [
        | yes same ↦ inr (own same, (task, ap (fetch_task contact) (sym same) ∙ e, rejected))
        | no apart ↦ inl (rw rejected (close_declined-Waits i s apart v))
      ]
    ]

    pull_tasks-Ends :
        (ids : List String) (s : PullState B)
        → All (λ i. i ≡ id → its ≡ peer) ids
        → Waits ask peer id s
        → Waits ask peer id (pull_tasks o config now instant contact its ids s)
          ⊎ DeclinedBy its peer id contact
    unfolding pull_tasks
    pull_tasks-Ends [] s own v = inl v
    pull_tasks-Ends (i ∷ ids) s own v =
        elim (after_task-Ends i (fetch_task contact i) s refl own.0 v) [
          | inr declines ↦ inr declines
          | inl waits ↦
              pull_tasks-Ends ids (after_task o config now instant its i (fetch_task contact i) s)
                own.1 waits
        ]

    pull_outbox-Ends :
        (r : Result Error (List Envelope)) (s : PullState B)
        → fetch_outbox contact ≡ r
        → Waits ask peer id s
        → Ends (pull_outbox o config now instant contact its r s)
    pull_outbox-Ends (err x) s e v =
        inl (record { readable = v.readable; there = v.there; owned = v.owned })
    pull_outbox-Ends (ok items) s e v =
        let s0 = record s {
          liveness = record_probe its true instant s.liveness;
          probed = s.probed + 1;
        } in
        let v0 : Waits ask peer id s0 = record {
          readable = v.readable;
          there = v.there;
          owned = v.owned;
        } in
        let s1 = pull_envelopes o config now instant contact its items s0 in
        elim (pull_envelopes-Ends items s0 (inside contact items e) v0) [
          | inr (own, reply) ↦
              inr (replied contact items (ap (λ p. find_contact p book) (sym own) ∙ known) e reply)
          | inl v1 ↦
              elim (pull_tasks-Ends (asks_of its s1.still_open) s1
                (asks_of-owned peer id its s1.still_open v1.owned) v1) [
                  | inl v2 ↦ inl v2
                  | inr (own, (task, told, rejected)) ↦ inr (
                      declined contact task (ap (λ p. find_contact p book) (sym own) ∙ known) told
                        rejected)
                ]
        ]

  choose-Ends : (b : Bool) (x y : PullState B) → Ends x → Ends y → Ends (if b then x else y)
  choose-Ends true x y hx hy = hx
  choose-Ends false x y hx hy = hy

  pull_contact-Ends :
      (its : String) (found : Option Contact) (s : PullState B)
      → find_contact its book ≡ found
      → Waits ask peer id s
      → Ends (pull_contact o config now instant its found s)
  pull_contact-Ends its none s e v = inl v
  pull_contact-Ends its (some contact) s e v =
      choose-Ends (should_skip s.liveness its instant) s _ (inl v)
        (pull_outbox-Ends its contact e (fetch_outbox contact) s refl v)

  pull_peers-Ends :
      (peers : List String) (s : PullState B)
      → Waits ask peer id s
      → Ends (pull_peers o config now instant book peers s)
  unfolding pull_peers
  pull_peers-Ends [] s v = inl v
  pull_peers-Ends (its ∷ peers) s v =
      elim (pull_contact-Ends its (find_contact its book) s refl v) [
        | inr reason ↦ inr reason
        | inl waits ↦
            pull_peers-Ends peers (pull_contact o config now instant its (find_contact its book) s)
              waits
      ]

  Kept : PullState B → Type 0
  Kept s = IsThere (IsAskOf id ask) asks id s.disk ⊎ Reason book peer id

  pull_book-Kept :
      (r : Result Error (List OpenAsk)) (s : PullState B)
      → ((l : List OpenAsk) → r ≡ ok l → All (IsOwned peer id) l)
      → Readable s.disk
      → IsThere (IsAskOf id ask) asks id s.disk
      → IsThere (IsAskOf id ask) asks id (pull_book o config now instant r (some book) s).1.disk
        ⊎ Reason book peer id
  pull_book-Kept (err x) s own readable there = inl there
  pull_book-Kept (ok l) s own readable there =
      elim (pull_peers-Ends (peers_of l) (begin l s)
        (record { readable = readable; there = there; owned = own l refl })) [
          | inl v ↦ inl v.there
          | inr reason ↦ inr reason
        ]

  -- A pull leaves an ask in `asks` whatever write fails: its record is the one that was there but for
  -- its metadata, and it is read as the same open ask. Otherwise the responder that every open ask with
  -- its id was put to has sent a reply to it that it has signed, or says that it declined it. That no
  -- reply has an id that is a path to another record, that no read fails and that serde_json reads back
  -- the record that it wrote are hypotheses.
  pub pull_once-keeps :
      (s : PullState B)
      → ((l : List OpenAsk) → open_asks s.disk ≡ ok l → All (IsOwned peer id) l)
      → Readable s.disk
      → get asks id s.disk ≡ ok (some ask)
      → IsThere (IsAskOf id ask) asks id (pull_once o config now instant (some book) s).1.disk
        ⊎ Reason book peer id
  unfolding pull_once
  pull_once-keeps s own readable there =
      pull_book-Kept (open_asks s.disk) s own readable
        (ask, there, record { same = refl; opens = refl })
