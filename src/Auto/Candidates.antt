-- ===== src/Auto/Candidates.antt =====
-- src/auto.rs: what the scheduler answers by itself.
use owlpost.Prelude.{
  String, ◌≡◌, ◌≢◌, refl, sym, ap, ◌∙◌, Bool, true, false, Option, none, some, List, eq_iff, ◌==◌,
  ◌⊎◌, inl, inr, Bool-cases,
}
use owlpost.Prelude.Results.{Result, ok, err}
use owlpost.Prelude.Exec.{continue-state}
use owlpost.Record.{Record, inbox}
use owlpost.Config.{Config}
use owlpost.Contacts.{Mode, Contact, policy_for, mode_of}
use owlpost.Envelope.{Payload, Kind}
use owlpost.Error.{Error}
use owlpost.External.{External}
use owlpost.Spool.{get}
use owlpost.Spool.Files.{Codec}
use owlpost.Answer.{payload_of, question_body}
use owlpost.Answer.Home.{Home}
use owlpost.Auto.{
  Runner, not_a_candidate, by_policy, by_body, by_kind, by_payload, attempt, with_record, unless,
}

-- A pending question from a peer whose policy is `auto`, with the responder on.
pub record Candidate ⦃e : External⦄ (config : Config) (book : List Contact) (id : String)
    (rec : Record) : Type 0 where
  pub payload : Payload
  pub pending : rec.state ≡ "pending"
  pub parsed : payload_of id rec ≡ ok payload
  pub not_content : payload.kind ≢ Kind.content
  pub not_tool_call : payload.kind ≢ Kind.tool_call
  pub question : (q : String × Option String × String) × (question_body payload ≡ ok q)
  pub enabled : config.responder.enabled ≡ true
  pub auto : mode_of (policy_for payload.from book) ≡ some Mode.auto

by_policy-none : (m : Option Mode) → by_policy m ≡ none → m ≡ some Mode.auto
by_policy-none none h = cc
by_policy-none (some Mode.manual) h = cc
by_policy-none (some Mode.auto) h = refl
by_policy-none (some Mode.never) h = cc

by_body-none :
    (config : Config) (book : List Contact) (payload : Payload)
    (r : Result Error (String × Option String × String))
    → by_body config book payload r ≡ none
    → ((q : String × Option String × String) × (r ≡ ok q))
      × (config.responder.enabled ≡ true)
      × (mode_of (policy_for payload.from book) ≡ some Mode.auto)
by_body-none config book payload (err x) h = cc
by_body-none config book payload (ok q) h = elim (Bool-cases config.responder.enabled) [
  | inl on ↦ ((q, refl), on, by_policy-none (mode_of (policy_for payload.from book)) (rw on at h))
  | inr off ↦
      let bad : ◌≡◌ {A = Option String} (some "responder is disabled") none = rw off at h in cc
]

clash : false ≡ true → ⊥
clash h = cc

-- A kind that is neither a file nor a run of a tool.
abbrev is_unattended : Kind → Bool
is_unattended Kind.content = false
is_unattended Kind.tool_call = false
is_unattended _ = true

by_kind-none :
    (config : Config) (book : List Contact) (payload : Payload) (kind : Kind)
    → by_kind config book payload kind ≡ none
    → (is_unattended kind ≡ true) × (by_body config book payload (question_body payload) ≡ none)
by_kind-none config book payload Kind.content h = cc
by_kind-none config book payload Kind.tool_call h = cc
by_kind-none config book payload Kind.question h = (refl, h)
by_kind-none config book payload Kind.answer h = (refl, h)
by_kind-none config book payload Kind.content_reply h = (refl, h)
by_kind-none config book payload Kind.tool_reply h = (refl, h)

not_content-of :
    (kind : Kind) → is_unattended kind ≡ true → (kind ≢ Kind.content) × (kind ≢ Kind.tool_call)
not_content-of kind h =
    (λ e. clash (ap is_unattended (sym e) ∙ h), λ e. clash (ap is_unattended (sym e) ∙ h))

module _ ⦃e : External⦄ (config : Config) (book : List Contact) (id : String) (rec : Record) where
  by_payload-none :
      rec.state ≡ "pending"
      → (r : Result Error Payload) → payload_of id rec ≡ r
      → by_payload config book r ≡ none
      → Candidate config book id rec
  by_payload-none pending (err x) was h = cc
  by_payload-none pending (ok payload) was h =
      let (unattended, by_body_none) = by_kind-none config book payload payload.kind h in
      let (question, enabled, auto) =
        by_body-none config book payload (question_body payload) by_body_none in
      let (not_content, not_tool_call) = not_content-of payload.kind unattended in
      record {
        payload = payload;
        pending = pending;
        parsed = was;
        not_content = not_content;
        not_tool_call = not_tool_call;
        question = question;
        enabled = enabled;
        auto = auto;
      }

  pub not_a_candidate-none :
      not_a_candidate config book id rec ≡ none → Candidate config book id rec
  unfolding not_a_candidate
  not_a_candidate-none h = elim (Bool-cases (rec.state == "pending")) [
    | inl pending ↦
        by_payload-none ((eq_iff rec.state "pending").0 pending) (payload_of id rec) refl
          (rw pending at h)
    | inr other ↦ let bad : ◌≡◌ {A = Option String} (some rec.state) none = rw other at h in cc
  ]

module _ {B : Type 0} ⦃e : External⦄ ⦃c : Codec B⦄ (config : Config) (run : Runner)
    (answer_id now id : String) (contacts : Option (List Contact)) (h : Home B) where
  -- The home is as it was, or the record is one that may be answered.
  abbrev Effect : Home B → Type 0
  Effect h' =
      (h' ≡ h)
      ⊎ ((book : List Contact) × (rec : Record) × (contacts ≡ some book)
          × (get inbox id h.disk ≡ ok (some rec))
          × Candidate config book id rec)

  unless-Effect :
      (book : List Contact) (rec : Record)
      → contacts ≡ some book
      → get inbox id h.disk ≡ ok (some rec)
      → (why : Option String) → not_a_candidate config book id rec ≡ why
      → Effect (unless config run answer_id now id rec why h).1
  unless-Effect book rec known there (some why) was = inl refl
  unless-Effect book rec known there none was =
      inr (book, rec, known, there, not_a_candidate-none config book id rec was)

  with_record-Effect :
      (loaded : Option (List Contact)) (found : Option Record)
      → contacts ≡ loaded
      → get inbox id h.disk ≡ ok found
      → Effect (with_record config run answer_id now id loaded found h).1
  with_record-Effect loaded none known there = inl refl
  with_record-Effect none (some rec) known there = inl refl
  with_record-Effect (some book) (some rec) known there =
      unless-Effect book rec known there (not_a_candidate config book id rec) refl

  -- An attempt of the scheduler changes the home only for a pending question, never for a request of
  -- a file or of the run of a tool, and only if the responder is on and the policy of the sender, as
  -- it is when the attempt is made, is `auto`.
  pub attempt-Effect : Effect (attempt config run answer_id now id contacts h).1
  unfolding attempt
  attempt-Effect =
      continue-state Effect (get inbox id h.disk, h)
        (with_record config run answer_id now id contacts) (inl refl)
        (λ found there. with_record-Effect contacts found refl there)
