-- ===== src/Pull/Ingest.antt =====
-- src/pull.rs: what one envelope does to the asks and to the inbox.
use owlpost.Prelude.{
  String, String_discrete, ◌≡◌, ◌≢◌, ◌⊎◌, inl, inr, refl, sym, ap, ◌∙◌, Bool, true, false, not,
  ◌&&◌, Option, none, some, List, ◌==◌, eq_iff, if◌then◌else◌, first, [], ◌∷◌, arith, Option-cases,
}
use owlpost.Prelude.Results.{Result, ok, err}
use owlpost.Prelude.Exec.{Exec, continue-state, after_ok, pure}
use owlpost.Record.{Record, Dir, inbox, asks, done, cache}
use owlpost.Envelope.{Payload}
use owlpost.Envelope.Signed.{Envelope}
use owlpost.External.{External}
use owlpost.Contacts.{Contact}
use owlpost.Error.{Error}
use owlpost.Client.{Wire, verify_answer}
use owlpost.Client.Verified.{IsSignedBy, verify_answer-ok}
use owlpost.Spool.{get, put, cache_put}
use owlpost.Spool.Files.{Codec, Disk}
use owlpost.Spool.Readers.{get-put_ne}
use owlpost.Spool.Changes.{Readable, get-of_put}
use owlpost.Spool.Others.{dir_apart, id_apart, get-close_ne}
use owlpost.Pull.{
  OpenAsk, find_ask, answer_record, put_unchecked, store_answer, is_answer, ingest_answer,
  ingest_for, ingest_verified, ingest_envelope, close,
}

abbrev pub Laws : {B : Type 0} → Codec B → Type 0
Laws c = (rec : Record) → c.from_slice (c.to_vec_pretty rec) ≡ some rec

-- The reply that an envelope holds has an id that is no path: its record is one of the inbox.
abbrev pub StaysInside : ⦃e : External⦄ → Envelope → Type 0
StaysInside ⦃e⦄ env =
    (answer : Payload)
    → e.parse_payload env.raw ≡ some answer
    → e.join inbox answer.id ≡ some (inbox, answer.id)

module _ {B : Type 0} ⦃e : External⦄ ⦃c : Codec B⦄ where
  put_unchecked-inside :
      (id : String) (rec : Record) (d : Disk B)
      → e.join inbox id ≡ some (inbox, id)
      → put_unchecked inbox id rec d ≡ put inbox id rec d
  unfolding put_unchecked
  put_unchecked-inside id rec d inside = rw inside refl

  get-cache_step :
      (t : Bool) (hash : String) (rec : Record) (d : Disk B) (dir : Dir) (id : String)
      → dir ≢ cache
      → get dir id ((if t then cache_put hash rec else pure tt) d).1 ≡ get dir id d
  unfolding cache_put
  get-cache_step true hash rec d dir id h = get-put_ne cache hash rec d dir id (dir_apart h)
  get-cache_step false hash rec d dir id h = refl

  pub store_answer-others :
      (rec : Record) (id hash : String) (t : Bool) (d : Disk B) (dir' : Dir) (id' : String)
      → e.join inbox id ≡ some (inbox, id)
      → dir' ≢ inbox
      → dir' ≢ cache
      → get dir' id' (store_answer rec id hash t d).1 ≡ get dir' id' d
  unfolding store_answer
  store_answer-others rec id hash t d dir' id' inside h k =
      let there = get-put_ne inbox id rec d dir' id' (dir_apart h) in
      rw (put_unchecked-inside id rec d inside) (
        continue-state (λ s. get dir' id' s ≡ get dir' id' d) (put inbox id rec d) _ there
          (λ _ _. get-cache_step t hash rec (put inbox id rec d).1 dir' id' k ∙ there))

  store_answer-stores :
      (rec : Record) (id hash : String) (t : Bool) (d : Disk B)
      → e.join inbox id ≡ some (inbox, id)
      → Laws c
      → Readable d
      → (store_answer rec id hash t d).0 ≡ ok tt
      → get inbox id (store_answer rec id hash t d).1 ≡ ok (some rec)
  unfolding store_answer
  store_answer-stores rec id hash t d inside laws readable worked =
      rw (put_unchecked-inside id rec d inside) (
        after_ok (λ s. get inbox id s ≡ ok (some rec)) (put inbox id rec d) _ tt
          (λ u was_ok _.
            get-cache_step t hash rec (put inbox id rec d).1 inbox id (λ e. cc)
            ∙ get-of_put inbox id rec d u (laws rec) readable was_ok)
          (rw (put_unchecked-inside id rec d inside) at worked))

none-ne-some : {A : Type 0} {x : A} → none ≡ some x → ⊥
none-ne-some h = cc

first-holds : {A : Type 0} (p : A → Bool) (xs : List A) (x : A) → first p xs ≡ some x → p x ≡ true
first-holds p [] x h = cc
first-holds p (y ∷ ys) x h = ground (arith, first-holds p ys x)

owned-by :
    (peer : String) (ask ask' : OpenAsk)
    → (if ask.peer == peer then some ask else none) ≡ some ask'
    → (ask.peer ≡ peer) × (ask ≡ ask')
owned-by peer ask ask' h = ground (arith, eq_iff ask.peer peer)

-- The ask that is found is the one that the reply names, and was put to its sender.
find_ask-IsOwn :
    (peer : String) (q : Option String) (open_asks : List OpenAsk) (ask : OpenAsk)
    → find_ask peer q open_asks ≡ some ask
    → (q ≡ some ask.id)
      × (ask.peer ≡ peer)
      × (first (λ (a : OpenAsk). a.id == ask.id) open_asks ≡ some ask)
unfolding find_ask
find_ask-IsOwn peer none open_asks ask h = cc
find_ask-IsOwn peer (some q) open_asks ask h =
    elim (Option-cases (first (λ (a : OpenAsk). a.id == q) open_asks)) [
      | inl missing ↦ absurd (none-ne-some (sym (rw (missing, find_ask) refl) ∙ h))
      | inr (a, there) ↦
          let (own, same) = owned-by peer a ask (sym (rw (there, find_ask) refl) ∙ h) in
          let its_id =
            (eq_iff a.id q).0 (first-holds (λ (b : OpenAsk). b.id == q) open_asks a there) in
          let named : q ≡ ask.id = sym its_id ∙ ap (λ (b : OpenAsk). b.id) same in
          (
            ap some named,
            ap (λ (b : OpenAsk). b.peer) (sym same) ∙ own,
            ap (λ i. first (λ (b : OpenAsk). b.id == i) open_asks) (sym named)
                ∙ there
                ∙ ap some same,
          )
    ]

-- Where the asks of a peer are read before and after: the ask reads as before, or it was the one
-- that the signed answer names, and that answer is in the inbox.
abbrev pub IsKept : {B : Type 0} ⦃c : Codec B⦄ → String → Disk B → Disk B → Type 0
IsKept id d d' = get asks id d' ≡ get asks id d

pub record IsClosed {B : Type 0} ⦃e : External⦄ ⦃c : Codec B⦄ (now : String) (contact : Contact)
    (open_asks : List OpenAsk) (env : Envelope) (id : String) (d' : Disk B) : Type 0 where
  pub answer : Payload
  pub ask : OpenAsk
  pub signed : IsSignedBy contact env answer
  pub found : first (λ (a : OpenAsk). a.id == id) open_asks ≡ some ask
  pub own : ask.peer ≡ contact.fingerprint
  pub replies : answer.in_reply_to ≡ some id
  pub stored :
      get inbox answer.id d' ≡ ok (some (answer_record now env answer ask contact.fingerprint))

module _ {B : Type 0} ⦃e : External⦄ ⦃w : Wire⦄ ⦃c : Codec B⦄ (now : String) (contact : Contact)
    (laws : Laws c) (open_asks : List OpenAsk) (env : Envelope) (d : Disk B) (readable : Readable d)
    (inside : StaysInside env) (id : String) where
  abbrev Effect : Disk B → Type 0
  Effect d' = IsKept id d d' ⊎ IsClosed now contact open_asks env id d'

  module _ (answer : Payload) (ask : OpenAsk) (signed : IsSignedBy contact env answer)
      (joined : e.join inbox answer.id ≡ some (inbox, answer.id))
      (found : find_ask contact.fingerprint answer.in_reply_to open_asks ≡ some ask) where
    abbrev pub its_record : Record
    its_record = answer_record now env answer ask contact.fingerprint

    abbrev pub storing : Exec Error (Disk B) Unit
    storing =
        store_answer its_record answer.id ask.hash
          (not ask.threaded && is_answer answer.kind && not (ask.hash == ""))

    -- After the answer is stored, the ask is closed.
    closing-others :
        (d1 : Disk B) (dir' : Dir) (id' : String)
        → dir' ≢ done
        → (dir' ≢ asks) ⊎ (id' ≢ ask.id)
        → get dir' id' (close now asks ask.id "answered" "answer-received" none d1).1
          ≡ get dir' id' d1
    unfolding close
    closing-others d1 dir' id' not_done apart =
        get-close_ne now asks ask.id done "answered" "answer-received" none none d1 dir' id'
          (λ e. cc) (elim apart [ inl h ↦ dir_apart h | inr h ↦ id_apart h ]) (dir_apart not_done)

    abbrev pub AtEnd : (Disk B → Type 0) → Type 0
    AtEnd P = P (ingest_answer now contact env answer ask d).1

    -- What holds once the answer is stored, and after the ask is closed, holds at the end.
    pub ingest_answer-state :
        (P : Disk B → Type 0)
        → P (storing d).1
        → ((storing d).0 ≡ ok tt
            → P (close now asks ask.id "answered" "answer-received" none (storing d).1).1)
        → AtEnd P
    unfolding ingest_answer
    ingest_answer-state P first rest = continue-state P (storing d) _ first (λ u was_ok.
        continue-state P (close now asks ask.id "answered" "answer-received" none (storing d).1) _
          (rest was_ok) (λ _ _. rest was_ok))

    ingest_answer-Effect : Effect (ingest_answer now contact env answer ask d).1
    ingest_answer-Effect =
        let is_own = find_ask-IsOwn contact.fingerprint answer.in_reply_to open_asks ask found in
        let kept =
          store_answer-others its_record answer.id ask.hash _ d asks id joined (λ e. cc)
            (λ e. cc) in
        elim (String_discrete id ask.id) [
          | no other ↦
              ingest_answer-state Effect (inl kept)
                (λ _. inl (closing-others (storing d).1 asks id (λ e. cc) (inr other) ∙ kept))
          | yes same ↦ ingest_answer-state Effect (inl kept) (λ was_ok. inr (record {
            answer = answer;
            ask = ask;
            signed = signed;
            found = ap (λ i. first (λ (a : OpenAsk). a.id == i) open_asks) same ∙ is_own.2;
            own = is_own.1;
            replies = is_own.0 ∙ ap some (sym same);
            stored =
                closing-others (storing d).1 inbox answer.id (λ e. cc) (inl (λ e. cc))
                ∙ store_answer-stores its_record answer.id ask.hash _ d joined laws readable was_ok;
          }))
        ]

  ingest_for-Effect :
      (answer : Payload)
      → IsSignedBy contact env answer
      → e.join inbox answer.id ≡ some (inbox, answer.id)
      → (found : Option OpenAsk) → find_ask contact.fingerprint answer.in_reply_to open_asks ≡ found
      → Effect (ingest_for now contact env answer found d).1
  ingest_for-Effect answer signed joined none found = inl refl
  ingest_for-Effect answer signed joined (some ask) found =
      ingest_answer-Effect answer ask signed joined found

  ingest_verified-Effect :
      (r : Result Error Payload)
      → verify_answer contact env none ≡ r
      → Effect (ingest_verified now contact open_asks env r d).1
  ingest_verified-Effect (err x) h = inl refl
  ingest_verified-Effect (ok answer) h =
      ingest_for-Effect answer (verify_answer-ok contact env none answer h).0
        (inside answer (verify_answer-ok contact env none answer h).0.parsed)
        (find_ask contact.fingerprint answer.in_reply_to open_asks) refl

  pub ingest_envelope-Effect : Effect (ingest_envelope now contact open_asks env d).1
  unfolding ingest_envelope
  ingest_envelope-Effect = ingest_verified-Effect (verify_answer contact env none) refl
