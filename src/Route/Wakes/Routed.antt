-- ===== src/Route/Wakes/Routed.antt =====
-- `route` of src/route.rs: how it ends.
use owlpost.Prelude.{
  String, ◌≡◌, refl, sym, ap, subst, ◌∙◌, Bool, true, false, Option, none, some, List, [], ◌∷◌,
  if◌then◌else◌, keep, All, arith, Bool-cases, Option-cases, inl, inr,
}
use mathlib.Core.List.{filter_map}
use owlpost.Prelude.Assoc.{find_key}
use owlpost.Prelude.Order.{head, All-sort_with}
use owlpost.Prelude.Results.{Result, ok, err}
use owlpost.Prelude.Exec.{continue}
use owlpost.Record.{Record, inbox}
use owlpost.Error.{Error}
use owlpost.Config.{Config}
use owlpost.Envelope.{Payload}
use owlpost.External.{External}
use owlpost.Spool.{get}
use owlpost.Spool.Files.{Codec, Disk}
use owlpost.Route.{
  Marker, Routing, Routes, Outside, Session, load_routing, live_markers, live_marker, is_live,
}
use owlpost.Route.Sessions.{write_wake, save_routing, session_at}
use owlpost.Route.Saved.{save_routing-ok, write_wake-ok, wake-placed, load-saved}
use owlpost.Route.Wakes.{
  checkout_of, project_of, is_untried, candidates, unrouted, routed_to, wake_content, wake,
  wake_first, is_idle, no_target, route,
}
use owlpost.Route.Wakes.Target.{IsBest, candidates-IsBest}

module _ (o : Outside) (checkout : Option String) (id : String) (rec : Record) (payload : Payload)
    (s : Routes) where
  abbrev before : Routing
  before = load_routing id s

  -- The session that got the record, and what it got.
  pub record IsWoken (sid : String) (s' : Routes) : Type 0 where
    pub target : Marker
    pub content : String
    pub is_target : target.session_id ≡ sid
    pub alive : is_live o s target ≡ true
    pub untried : is_untried before target ≡ true
    pub best : IsBest o checkout (keep (is_untried before) (live_markers o s)) (some target)
    pub routing : load_routing id s' ≡ routed_to o sid before
    pub shows : wake_content o rec payload ≡ ok content
    pub waiting : find_key id (session_at sid s').wake ≡ some content

  -- Without a session to go to, every live one was tried, and none holds the record.
  pub record IsExhausted (s' : Routes) : Type 0 where
    pub all_tried : All (λ (m : Marker). is_untried before m ≡ false) (live_markers o s)
    pub nowhere : (load_routing id s').current ≡ none

  abbrev pub Outcome : Result Error (Option String) × Routes → Type 0
  Outcome (err e, s') = Unit
  Outcome (ok none, s') = IsExhausted s'
  Outcome (ok (some sid), s') = IsWoken sid s'

live_marker-live :
    (o : Outside) (s : Routes) (x : String × Session) (m : Marker)
    → live_marker o s x ≡ some m
    → is_live o s m ≡ true
live_marker-live o s (sid, x) m h = ground arith

All-filter_map :
    {A C : Type 0} (P : C → Type 0) (f : A → Option C)
    → ((x : A) (y : C) → f x ≡ some y → P y)
    → (xs : List A) → All P (filter_map f xs)
unfolding filter_map
All-filter_map P f each [] = tt
All-filter_map P f each (x ∷ xs) = elim (Option-cases (f x)) [
  | inl nothing ↦ rw (nothing, filter_map) (All-filter_map P f each xs)
  | inr (y, there) ↦ rw (there, filter_map) (each x y there, All-filter_map P f each xs)
]

All-unless :
    {A : Type 0} (P : A → Type 0) (b : Bool) (xs : List A) → All P xs → All P (if b then [] else xs)
All-unless P true xs h = tt
All-unless P false xs h = h

live_markers-live :
    (o : Outside) (s : Routes) → All (λ (m : Marker). is_live o s m ≡ true) (live_markers o s)
unfolding live_markers
live_markers-live o s =
    All-unless _ s.faults.list_sessions _
      (All-filter_map _ (live_marker o s) (live_marker-live o s) s.sessions)

All-keep :
    {A : Type 0} (P : A → Type 0) (p : A → Bool) (xs : List A)
    → All P xs
    → All (λ x. P x × (p x ≡ true)) (keep p xs)
All-keep P p [] h = tt
All-keep P p (x ∷ xs) h = elim (Bool-cases (p x)) [
  | inl kept ↦ rw kept ((h.0, kept), All-keep P p xs h.1)
  | inr left ↦ rw left (All-keep P p xs h.1)
]

none_kept :
    {A : Type 0} (p : A → Bool) (xs : List A) → All (λ _. ⊥) (keep p xs) → All (λ x. p x ≡ false) xs
none_kept p [] h = tt
none_kept p (x ∷ xs) h = elim (Bool-cases (p x)) [
  | inl kept ↦
      absurd ((subst (λ b. All (λ _. ⊥) (if b then x ∷ keep p xs else keep p xs)) kept h).0)
  | inr left ↦ (
    left,
    none_kept p xs (subst (λ b. All (λ _. ⊥) (if b then x ∷ keep p xs else keep p xs)) left h),
  )
]

idle-nowhere : (r : Routing) → is_idle r ≡ true → r.current ≡ none
idle-nowhere r h = ground arith

module _ (o : Outside) (checkout : Option String) (id : String) (rec : Record) (payload : Payload)
    (s : Routes) where
  abbrev Ends : Result Error (Option String) × Routes → Type 0
  Ends = Outcome o checkout id rec payload s

  Ends-continue :
      {A : Type 0} (r : Result Error A × Routes)
      (k : A → Routes → Result Error (Option String) × Routes)
      → ((a : A) (s1 : Routes) → r ≡ (ok a, s1) → Ends (k a s1))
      → Ends (continue r k)
  Ends-continue (ok a, s1) k f = f a s1 refl
  Ends-continue (err e, s1) k f = tt

  no_target-Ends :
      All (λ (m : Marker). is_untried (load_routing id s) m ≡ false) (live_markers o s)
      → Ends (no_target id (load_routing id s) s)
  no_target-Ends tried = elim (Bool-cases (is_idle (load_routing id s))) [
    | inl idle ↦
        rw idle (record { all_tried = tried; nowhere = idle-nowhere (load_routing id s) idle })
    | inr held ↦ rw held (
        Ends-continue (save_routing id (unrouted (load_routing id s)) s) _ (λ u s1 e. record {
          all_tried = tried;
          nowhere =
              ap (λ (x : Routes). (load_routing id x).current)
                (sym (ap (λ (x : Result Error (Unit {0}) × Routes). x.1) e)
                  ∙ save_routing-ok id (unrouted (load_routing id s)) s u
                      (ap (λ (x : Result Error (Unit {0}) × Routes). x.0) e))
              ∙ ap (λ (x : Routing). x.current) (load-saved id (unrouted (load_routing id s)) s);
        }))
  ]

  snd : {A : Type 0} {r : Result Error A × Routes} {a : A} {s1 : Routes} → r ≡ (ok a, s1) → s1 ≡ r.1
  snd e = sym (ap (λ x. x.1) e)

  worked :
      {A : Type 0} {r : Result Error A × Routes} {a : A} {s1 : Routes} → r ≡ (ok a, s1) → r.0 ≡ ok a
  worked e = ap (λ x. x.0) e

  wake-Ends :
      (target : Marker)
      → is_live o s target ≡ true
      → is_untried (load_routing id s) target ≡ true
      → IsBest o checkout (keep (is_untried (load_routing id s)) (live_markers o s)) (some target)
      → Ends (wake o id rec payload (load_routing id s) target s)
  unfolding wake
  wake-Ends target alive untried best =
      let sid = target.session_id in
      Ends-continue (wake_content o rec payload, s) _
        (λ content s1 e1. Ends-continue (write_wake sid id content s1) _ (λ u s2 e2.
          Ends-continue (save_routing id (routed_to o sid (load_routing id s)) s2) _ (λ u' s3 e3.
            let placed_it = snd e2 ∙ write_wake-ok sid id content s1 u (worked e2) in
            let saved_it =
              snd e3 ∙ save_routing-ok id (routed_to o sid (load_routing id s)) s2 u' (worked e3) in
            record {
              target = target;
              content = content;
              is_target = refl;
              alive = alive;
              untried = untried;
              best = best;
              routing =
                  ap (load_routing id) saved_it
                  ∙ load-saved id (routed_to o sid (load_routing id s)) s2;
              shows = worked e1;
              waiting =
                  ap (λ (x : Routes). find_key id (session_at sid x).wake) saved_it
                  ∙ ap (λ (x : Routes). find_key id (session_at sid x).wake) placed_it
                  ∙ wake-placed sid id content s1;
            })))

  untried_live :
      All
        (λ (m : Marker). (is_live o s m ≡ true) × (is_untried (load_routing id s) m ≡ true))
        (candidates o checkout (load_routing id s) s)
  unfolding candidates
  untried_live =
      All-sort_with _ _ _
        (All-keep _ (is_untried (load_routing id s)) (live_markers o s) (live_markers-live o s))

  wake_first-Ends :
      (found : List Marker)
      → All
          (λ (m : Marker). (is_live o s m ≡ true) × (is_untried (load_routing id s) m ≡ true))
          found
      → IsBest o checkout (keep (is_untried (load_routing id s)) (live_markers o s)) (head found)
      → Ends (wake_first o id rec payload (load_routing id s) (head found) s)
  wake_first-Ends [] facts best =
      no_target-Ends (none_kept (is_untried (load_routing id s)) (live_markers o s) best)
  wake_first-Ends (target ∷ rest) facts best = wake-Ends target facts.0.0 facts.0.1 best

module _ {B : Type 0} ⦃e : External⦄ ⦃c : Codec B⦄ (o : Outside) (config : Config) (id : String)
    (d : Disk B) (s : Routes) (rec : Record) (payload : Payload)
    (there : get inbox id d ≡ ok (some rec)) (parsed : e.parse_payload rec.raw ≡ some payload) where
  -- Where the record is in the inbox and holds a payload, `route` ends in one of three ways. It returns
  -- an error. Or it returns a session: a live one that the record was not offered to before, such
  -- that none of these is nearer to the record's project or, as near, was heard of later; the record's
  -- routing names it, and its wake file holds the record's table. Or it returns none: the record was
  -- offered to every live session, and its routing names none.
  pub route-Outcome :
      Outcome o
        (checkout_of o config (project_of d payload))
        id
        rec
        payload
        s
        (route o config id d s)
  unfolding route
  route-Outcome =
      let checkout = checkout_of o config (project_of d payload) in
      rw (there, parsed)
        (wake_first-Ends o checkout id rec payload s (candidates o checkout (load_routing id s) s)
          (untried_live o checkout id rec payload s)
          (candidates-IsBest o checkout (load_routing id s) s))
