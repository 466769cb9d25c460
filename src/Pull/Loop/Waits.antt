-- ===== src/Pull/Loop/Waits.antt =====
-- src/pull.rs: why an ask may be closed, and what it takes to be still open.
use owlpost.Prelude.{
  String, ◌≡◌, ◌⊎◌, inl, inr, refl, sym, ap, ◌∙◌, true, not, ◌&&◌, Option, none, some, List, [],
  ◌∷◌, ◌==◌, eq_iff, All, first, Bool-cases, arith, eq_of_some-eq,
}
use owlpost.Prelude.Results.{Result, ok, err}
use owlpost.Prelude.Exec.{continue-state}
use owlpost.Record.{Record, asks, done}
use owlpost.Error.{Error}
use owlpost.Envelope.{Payload}
use owlpost.Envelope.Signed.{Envelope}
use owlpost.External.{External}
use owlpost.Contacts.{Contact, find_contact}
use owlpost.Client.{Wire, Task, fetch_outbox, fetch_task, is_rejected, verify_answer}
use owlpost.Client.Verified.{IsSignedBy}
use owlpost.Spool.Files.{Codec, Disk}
use owlpost.Spool.Changes.{Readable}
use owlpost.Spool.Others.{IsThere, close-faults}
use owlpost.Pull.{
  OpenAsk, ingest_answer, ingest_for, ingest_verified, ingest_envelope, close, answer_record,
  store_answer, is_answer,
}
use owlpost.Pull.Closing.{store_answer-faults}
use owlpost.Pull.Asked.{IsAskOf}
use owlpost.Pull.Loop.{PullState, without, asks_of}

-- One of the list
abbrev pub Any : {A : Type 0} → (A → Type 0) → List A → Type 0
Any P [] = ⊥
Any P (x ∷ xs) = P x ⊎ Any P xs

-- A reply to the ask that the contact has signed
pub record Replies ⦃e : External⦄ (contact : Contact) (id : String) (env : Envelope) : Type 0 where
  pub answer : Payload
  pub signed : IsSignedBy contact env answer
  pub replies : answer.in_reply_to ≡ some id

-- Why an ask may be closed: its responder sent a signed reply to it, or declined it.
pub data Reason ⦃e : External⦄ ⦃w : Wire⦄ (book : List Contact) (peer id : String) : Type 0 where
  replied :
      (contact : Contact) (items : List Envelope)
      → find_contact peer book ≡ some contact
      → fetch_outbox contact ≡ ok items
      → Any (Replies contact id) items
      → Reason book peer id
  declined :
      (contact : Contact) (task : Task)
      → find_contact peer book ≡ some contact
      → fetch_task contact id ≡ ok (some task)
      → is_rejected task ≡ true
      → Reason book peer id

pub All-without :
    (P : OpenAsk → Type 0) (id : String) (l : List OpenAsk) → All P l → All P (without id l)
All-without P id [] h = tt
All-without P id (a ∷ l) h = ground (arith, All-without P id l h.1)

module _ {B : Type 0} ⦃e : External⦄ ⦃w : Wire⦄ ⦃c : Codec B⦄ (now : String)
    (contact : Contact) where
  ingest_answer-faults :
      (env : Envelope) (answer : Payload) (ask : OpenAsk) (d : Disk B)
      → (ingest_answer now contact env answer ask d).1.faults ≡ d.faults
  unfolding ingest_answer close
  ingest_answer-faults env answer ask d =
      let cached = not ask.threaded && is_answer answer.kind && not (ask.hash == "") in
      let rec = answer_record now env answer ask contact.fingerprint in
      let stored = store_answer-faults rec answer.id ask.hash cached d in
      let storing = store_answer rec answer.id ask.hash cached d in
      let closed =
        close-faults now asks ask.id done "answered" "answer-received" none none storing.1 (λ e. cc)
        ∙ stored in
      continue-state (λ (s : Disk B). s.faults ≡ d.faults) storing _ stored
        (λ _ _.
          continue-state (λ (s : Disk B). s.faults ≡ d.faults)
            (close now asks ask.id "answered" "answer-received" none storing.1) _ closed
            (λ _ _. closed))

  ingest_for-faults :
      (env : Envelope) (answer : Payload) (d : Disk B) (found : Option OpenAsk)
      → (ingest_for now contact env answer found d).1.faults ≡ d.faults
  ingest_for-faults env answer d none = refl
  ingest_for-faults env answer d (some ask) = ingest_answer-faults env answer ask d

  ingest_verified-faults :
      (l : List OpenAsk) (env : Envelope) (d : Disk B) (r : Result Error Payload)
      → (ingest_verified now contact l env r d).1.faults ≡ d.faults
  ingest_verified-faults l env d (err x) = refl
  ingest_verified-faults l env d (ok answer) = ingest_for-faults env answer d _

  pub ingest_envelope-faults :
      (l : List OpenAsk) (env : Envelope) (d : Disk B)
      → (ingest_envelope now contact l env d).1.faults ≡ d.faults
  unfolding ingest_envelope
  ingest_envelope-faults l env d = ingest_verified-faults l env d (verify_answer contact env none)

-- The open asks with the id were put to `peer`.
abbrev pub IsOwned : (peer id : String) → OpenAsk → Type 0
IsOwned peer id a = a.id ≡ id → a.peer ≡ peer

-- The ask is still in `asks`.
pub record Waits {B : Type 0} ⦃e : External⦄ ⦃c : Codec B⦄ (ask : Record) (peer id : String)
    (s : PullState B) : Type 0 where
  pub readable : Readable s.disk
  pub there : IsThere (IsAskOf id ask) asks id s.disk
  pub owned : All (IsOwned peer id) s.still_open

pub Readable-of :
    {B : Type 0} ⦃c : Codec B⦄ (d d' : Disk B) → d'.faults ≡ d.faults → Readable d → Readable d'
Readable-of d d' same h p = ap (λ f. f.read p) same ∙ h p

pub first-owned :
    (peer id : String) (l : List OpenAsk) (ask : OpenAsk)
    → All (IsOwned peer id) l
    → first (λ (a : OpenAsk). a.id == id) l ≡ some ask
    → ask.peer ≡ peer
first-owned peer id [] ask h e = cc
first-owned peer id (a ∷ l) ask h e = elim (Bool-cases (a.id == id)) [
  | inl same ↦
      let found : a ≡ ask = eq_of_some-eq (rw same at e) in
      ap (λ (x : OpenAsk). x.peer) (sym found) ∙ h.0 ((eq_iff a.id id).0 same)
  | inr apart ↦ first-owned peer id l ask h.1 (rw apart at e)
]

pub find_contact-fingerprint :
    (fingerprint : String) (book : List Contact) (contact : Contact)
    → find_contact fingerprint book ≡ some contact
    → contact.fingerprint ≡ fingerprint
unfolding find_contact
find_contact-fingerprint fingerprint [] contact h = cc
find_contact-fingerprint fingerprint (k ∷ ks) contact h =
    ground
      (arith, eq_iff k.fingerprint fingerprint, find_contact-fingerprint fingerprint ks contact)

-- A responder says that it declined the ask.
abbrev pub DeclinedBy : ⦃e : External⦄ ⦃w : Wire⦄ → (its peer id : String) → Contact → Type 0
DeclinedBy its peer id contact =
    (its ≡ peer)
    × ((task : Task) × (fetch_task contact id ≡ ok (some task)) × (is_rejected task ≡ true))

-- Where the open asks of a responder are asked about, they are its own.
pub asks_of-owned :
    (peer id its : String) (l : List OpenAsk)
    → All (IsOwned peer id) l
    → All (λ i. i ≡ id → its ≡ peer) (asks_of its l)
asks_of-owned peer id its [] h = tt
asks_of-owned peer id its (a ∷ l) h = elim (Bool-cases (a.peer == its)) [
  | inl same ↦
      rw same (λ e. sym ((eq_iff a.peer its).0 same) ∙ h.0 e, asks_of-owned peer id its l h.1)
  | inr apart ↦ rw apart (asks_of-owned peer id its l h.1)
]
