-- ===== src/Server/Tasks/Owners.antt =====
-- src/server.rs: a task is shown to the peer that asked, and to no other.
use owlpost.Prelude.{
  String, ◌≡◌, refl, ap, ◌∙◌, Bool, true, Option, none, some, List, [], ◌∷◌, All, ◌⊎◌, inl, inr,
  Bool-cases, Option-cases,
}
use owlpost.Prelude.Results.{Result, ok, err, >>=-eq-ok, ok-injective}
use owlpost.Json.{Value}
use owlpost.Record.{Record, Dir, inbox, outbox, done}
use owlpost.Envelope.{Payload}
use owlpost.Error.{Error}
use owlpost.External.{External}
use owlpost.Spool.{Entry, get, list_lenient}
use owlpost.Spool.Files.{Codec, Disk}
use owlpost.Spool.Listing.{IsStored, list_lenient-IsStored}
use owlpost.Server.Tasks.{
  task_if, reply_task, found_or_none, asked_by, replies_to, waiting_task, finished_task,
  answered_task, or_task, after_inbox, find_task,
}

-- A record of the directory whose payload passes the test.
pub record Holds ⦃e : External⦄ {B : Type 0} ⦃c : Codec B⦄ (dir : Dir) (id : String)
    (test : Payload → Bool) (d : Disk B) : Type 0 where
  pub rec : Record
  pub payload : Payload
  pub there : get dir id d ≡ ok (some rec)
  pub parsed : e.parse_payload rec.raw ≡ some payload
  pub passes : test payload ≡ true

found_or_none-some :
    (r : Result Error (Option Record)) (rec : Record)
    → found_or_none r ≡ some rec
    → r ≡ ok (some rec)
found_or_none-some (ok found) rec h = ap ok h
found_or_none-some (err x) rec h = cc

module _ ⦃e : External⦄ (test : Payload → Bool) (make : Record → Payload → Value) where
  task_if-some :
      (found : Option Record) (v : Value)
      → task_if test make found ≡ some v
      → (rec : Record) × (p : Payload) × (found ≡ some rec)
        × (e.parse_payload rec.raw ≡ some p)
        × (test p ≡ true)
  task_if-some none v h = cc
  task_if-some (some rec) v h = elim (Option-cases (e.parse_payload rec.raw)) [
    | inl bad ↦ let no : ◌≡◌ {A = Option Value} none (some v) = rw (bad, task_if) at h in cc
    | inr (p, parsed) ↦ elim (Bool-cases (test p)) [
      | inl passes ↦ (rec, p, refl, parsed, passes)
      | inr fails ↦
          let no : ◌≡◌ {A = Option Value} none (some v) = rw (parsed, fails, task_if) at h in cc
    ]
  ]

  or_task-some :
      (a b : Option Value) (v : Value) → or_task a b ≡ some v → (a ≡ some v) ⊎ (b ≡ some v)
  or_task-some none b v h = inr h
  or_task-some (some w) b v h = inl h

  module _ {B : Type 0} ⦃c : Codec B⦄ (d : Disk B) where
    task_if-Holds :
        (dir : Dir) (id : String) (v : Value)
        → task_if test make (found_or_none (get dir id d)) ≡ some v
        → Holds dir id test d
    task_if-Holds dir id v h =
        let (rec, p, found, parsed, passes) = task_if-some (found_or_none (get dir id d)) v h in
        record {
          rec = rec;
          payload = p;
          there = found_or_none-some (get dir id d) rec found;
          parsed = parsed;
          passes = passes;
        }

    reply_task-Holds :
        (entries : List Entry) (v : Value)
        → All (IsStored outbox d) entries
        → reply_task test make entries ≡ some v
        → (id : String) × Holds outbox id test d
    unfolding reply_task
    reply_task-Holds [] v stored h = cc
    reply_task-Holds (entry ∷ entries) v (there, stored) h =
        elim (or_task-some (task_if test make (some entry.1)) (reply_task test make entries) v h) [
          | inl first ↦
              let (rec, p, same, parsed, passes) = task_if-some (some entry.1) v first in
              (
                entry.0,
                record {
                  rec = rec;
                  payload = p;
                  there = there ∙ ap ok same;
                  parsed = parsed;
                  passes = passes;
                },
              )
          | inr later ↦ reply_task-Holds entries v stored later
        ]

module _ {B : Type 0} ⦃e : External⦄ ⦃c : Codec B⦄ (caller id message_id : String)
    (d : Disk B) where
  after_inbox-owner :
      (waiting : Option Value) (v : Value)
      → after_inbox caller id message_id
          (found_or_none (get done id d))
          waiting
          (list_lenient outbox d)
        ≡ ok (some v)
      → (waiting ≡ some v)
        ⊎ ((aid : String) × Holds outbox aid (replies_to caller id) d)
        ⊎ Holds done id (asked_by caller) d
  after_inbox-owner (some w) v h = inl (ok-injective h)
  after_inbox-owner none v h =
      let finished = found_or_none (get done id d) in
      let (entries, listed, same) = >>=-eq-ok (list_lenient outbox d) _ h in
      elim (or_task-some (asked_by caller) (waiting_task id message_id)
        (reply_task (replies_to caller id) (answered_task id message_id finished) entries)
        (task_if (asked_by caller) (finished_task id message_id) finished) v (ok-injective same)) [
          | inl replied ↦ inr (
              inl (
                reply_task-Holds (replies_to caller id) (answered_task id message_id finished) d
                  entries v (list_lenient-IsStored outbox d entries listed) replied))
          | inr asked ↦ inr (
              inr (task_if-Holds (asked_by caller) (finished_task id message_id) d done id v asked))
        ]

  -- A task is found for a caller only if the inbox or `done` holds a request with the id that the
  -- caller has sent, or the outbox holds a reply to that request addressed to the caller.
  pub find_task-owner :
      (v : Value)
      → find_task caller id message_id d ≡ ok (some v)
      → Holds inbox id (asked_by caller) d
        ⊎ ((aid : String) × Holds outbox aid (replies_to caller id) d)
        ⊎ Holds done id (asked_by caller) d
  unfolding find_task
  find_task-owner v h =
      elim (after_inbox-owner
        (task_if (asked_by caller) (waiting_task id message_id) (found_or_none (get inbox id d))) v
        h) [
          | inl waiting ↦
              inl
                (task_if-Holds (asked_by caller) (waiting_task id message_id) d inbox id v waiting)
          | inr rest ↦ inr rest
        ]

  -- A request that waits in the inbox is found by the peer that sent it, whatever else is stored.
  pub find_task-waiting :
      (h : Holds inbox id (asked_by caller) d)
      → find_task caller id message_id d ≡ ok (some (waiting_task id message_id h.rec h.payload))
  unfolding find_task
  find_task-waiting h = rw (h.there, h.parsed, h.passes)
