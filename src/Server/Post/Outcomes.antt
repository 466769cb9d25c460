-- ===== src/Server/Post/Outcomes.antt =====
-- src/server.rs: what a successful answer of `post_question` says of the request and of the state after.
use owlpost.Prelude.{
  ℕ, String, ◌≡◌, refl, sym, ap, Bool, true, false, not, Option, none, some, arith, if◌then◌else◌,
  ◌&&◌, ◌||◌, ◌++◌, [], ◌∷◌,
}
use owlpost.Prelude.Results.{Result, ok, err, ok-injective}
use owlpost.Prelude.Exec.{after_ok, continue}
use owlpost.Record.{Record, inbox}
use owlpost.Envelope.{Payload}
use owlpost.External.{External}
use owlpost.Spool.{put, cache_get}
use owlpost.Spool.Files.{Codec}
use owlpost.Server.State.{AppState}
use owlpost.Server.Post.{
  Request, Response, cached, new_record, record_state_for, may_read_cache, has_context, accepted,
}
use owlpost.Server.Post.Arrivals.{IsSpooled, new_record-IsSpooled}
use owlpost.Server.Post.Handler.{
  remember, on_disk, mode_in, admit, cached_answer, spool_request, stored, in_known_thread,
}
use owlpost.Envelope.Task.{a2a_state}
use owlpost.Answer.Threads.{thread_known}
use owlpost.Error.{Error}

module _ {B N : Type 0} where
  remember-disk : (id : String) (now : ℕ) (s : AppState B N) → (remember id now s).1.disk ≡ s.disk
  unfolding remember
  remember-disk id now s = ground arith

  remember-events :
      (id : String) (now : ℕ) (s : AppState B N) → (remember id now s).1.events ≡ s.events
  unfolding remember
  remember-events id now s = ground arith

  remember-routed :
      (id : String) (now : ℕ) (s : AppState B N) → (remember id now s).1.routed ≡ s.routed
  unfolding remember
  remember-routed id now s = ground arith

if_stored-some :
    {A : Type 0} (t : Bool) (x : Result Error (Option A)) (a : A)
    → (if t then stored x else ok none) ≡ ok (some a)
    → (t ≡ true) × (x ≡ ok (some a))
if_stored-some true (ok o) a h = (refl, ap ok (ok-injective h))
if_stored-some true (err e) a h = cc
if_stored-some false x a h = cc

not_or : (a b c : Bool) → (a && not (b || c)) ≡ true → (a ≡ true) × (b ≡ false) × (c ≡ false)
not_or a b c h = ground arith

module _ {B N : Type 0} ⦃e : External⦄ ⦃c : Codec B⦄ (now : ℕ) (request : Request) (caller : String)
    (payload : Payload) (hash : Option String) (s : AppState B N) where
  abbrev spooled_record : Record
  spooled_record = new_record now request caller payload (mode_in caller s) hash

  abbrev decided : String × Bool
  decided = record_state_for payload.kind (mode_in caller s)

  -- The request was spooled as it came, announced once, and answered with its A2A state.
  pub record Admitted (r : Response) (s' : AppState B N) : Type 0 where
    pub spooled :
        IsSpooled now request caller payload.kind (mode_in caller s) decided.1 spooled_record
    pub written : (put inbox payload.id spooled_record s.disk).0 ≡ ok tt
    pub disk : s'.disk ≡ (put inbox payload.id spooled_record s.disk).1
    pub routed : s'.routed ≡ s.routed ++ payload.id ∷ []
    pub events :
        s'.events
        ≡ s.events
          ++ record { id = payload.id; peer = caller; state = decided.0; auto = decided.1 } ∷ []
    pub answer : r ≡ accepted payload.id (a2a_state decided.0 false).0

  -- The answer is that of the cache, and nothing was spooled.
  pub record Served (r : Response) (s' : AppState B N) : Type 0 where
    pub key : String
    pub cached_record : Record
    pub keyed : hash ≡ some key
    pub found : cache_get key s.disk ≡ ok (some cached_record)
    pub allowed : may_read_cache (mode_in caller s) ≡ true
    pub no_context : has_context payload.body ≡ false
    pub no_thread :
        in_known_thread (λ cid. thread_known cid payload.id s.disk) payload.context_id ≡ false
    pub disk : s'.disk ≡ s.disk
    pub routed : s'.routed ≡ s.routed
    pub events : s'.events ≡ s.events
    pub answer : r ≡ cached cached_record.raw cached_record.sig

  admit-Admitted :
      (r : Response)
      → (put inbox payload.id spooled_record s.disk).0 ≡ ok tt
      → (admit now caller payload decided
          (record s { disk = (put inbox payload.id spooled_record s.disk).1 })).0
        ≡ ok r
      → Admitted r
          (admit now caller payload decided
            (record s { disk = (put inbox payload.id spooled_record s.disk).1 })).1
  unfolding admit
  admit-Admitted r written =
      let s' : AppState B N = record s { disk = (put inbox payload.id spooled_record s.disk).1 } in
      after_ok (Admitted r) (remember payload.id now s') _ r (λ _ _ h. record {
        spooled = new_record-IsSpooled now request caller payload (mode_in caller s) hash;
        written = written;
        disk = remember-disk payload.id now s';
        routed = ap (λ l. l ++ payload.id ∷ []) (remember-routed payload.id now s');
        events =
            ap
              (λ l.
                l
                ++ record { id = payload.id; peer = caller; state = decided.0; auto = decided.1 }
                  ∷ [])
              (remember-events payload.id now s');
        answer = sym (ok-injective h);
      })

  stored-ok : (x : Result Error (Unit {0})) (u : Unit {0}) → stored x ≡ ok u → x ≡ ok tt
  stored-ok (ok _) u h = refl
  stored-ok (err _) u h = cc

  pub spool_request-Admitted :
      (r : Response)
      → (spool_request now request caller payload hash s).0 ≡ ok r
      → Admitted r (spool_request now request caller payload hash s).1
  unfolding spool_request
  spool_request-Admitted r =
      after_ok (Admitted r) (on_disk (put inbox payload.id spooled_record) s)
        (λ _. admit now caller payload decided) r
        (λ u was_ok. admit-Admitted r (stored-ok _ u was_ok))

  pub remember_cached :
      (r : Response) (key : String) (rec : Record)
      → hash ≡ some key
      → cached_answer caller payload (some key) s ≡ ok (some rec)
      → (continue (remember payload.id now s) (λ _ s'. (ok (cached rec.raw rec.sig), s'))).0 ≡ ok r
      → Served r
          (continue (remember payload.id now s) (λ _ s'. (ok (cached rec.raw rec.sig), s'))).1
  unfolding cached_answer
  remember_cached r key rec keyed found =
      let (usable, got) = if_stored-some _ _ rec found in
      let (allowed, no_context, no_thread) = not_or _ _ _ usable in
      after_ok (Served r) (remember payload.id now s) (λ _ s'. (ok (cached rec.raw rec.sig), s')) r
        (λ _ _ h. record {
          key = key;
          cached_record = rec;
          keyed = keyed;
          found = got;
          allowed = allowed;
          no_context = no_context;
          no_thread = no_thread;
          disk = remember-disk payload.id now s;
          routed = remember-routed payload.id now s;
          events = remember-events payload.id now s;
          answer = sym (ok-injective h);
        })
