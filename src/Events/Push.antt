-- ===== src/Events/Push.antt =====
-- `push` of src/events.rs: the log stays within its limit and keeps its first event, the new event is
-- its last, and a repeated `state-seen` leaves the log alone.
use text.Mathlib.TextPositions.{eq_refl}
use owlpost.Prelude.{
  ℕ, zero, suc, ◌+◌, ◌≤◌, String, ◌≡◌, refl, ap, ◌∙◌, Bool, true, false, Option, none, some, List,
  [], ◌∷◌, ◌++◌, arith, length, length-append, if◌then◌else◌, ◌==◌, eq_iff, &&-eq-true, ◌≢◌,
  Bool-cases, inl, inr, ltb,
}
use owlpost.Json.{Value, lookup, get, get_str}
use owlpost.Json.Laws.{lookup-insert, to_list-of_list}
use owlpost.Record.{Record, meta_object}
use owlpost.Events.{
  Event, events_max, event_value, stored_events, find_last, is_state_seen, state_of,
  last_state_seen, drop_oldest, push_list, push, state_seen, collapses, same_state,
}

module _ {ℓ} {A : Type ℓ} where
  length-drop_oldest :
      (fuel : ℕ) (l : List A)
      → length l ≤ fuel + events_max
      → length (drop_oldest fuel l) ≤ events_max
  unfolding drop_oldest
  length-drop_oldest zero l h = omega arith
  length-drop_oldest (suc fuel) [] h = omega arith
  length-drop_oldest (suc fuel) (x ∷ []) h = omega arith
  length-drop_oldest (suc fuel) (x ∷ y ∷ l) h = ground (arith, length-drop_oldest fuel (x ∷ l))

  -- What is dropped stands neither first nor last.
  drop_oldest-ends :
      (fuel : ℕ) (x : A) (l : List A) (z : A)
      → (m : List A) × (drop_oldest fuel (x ∷ l ++ z ∷ []) ≡ x ∷ m ++ z ∷ [])
  unfolding drop_oldest
  drop_oldest-ends zero x l z = (l, refl)
  drop_oldest-ends (suc fuel) x [] z = ([], refl)
  drop_oldest-ends (suc fuel) x (y ∷ l) z =
      let (m, kept) = drop_oldest-ends fuel x l z in
      elim (Bool-cases (ltb events_max (length (x ∷ y ∷ l ++ z ∷ [])))) [
        | inl over ↦ (m, rw over kept)
        | inr fits ↦ (y ∷ l, rw fits)
      ]

  find_last-append :
      (p : A → Bool) (l : List A) (z : A)
      → find_last p (l ++ z ∷ []) ≡ (if p z then some z else find_last p l)
  unfolding find_last
  find_last-append p [] z = refl
  find_last-append p (x ∷ l) z = ground (arith, find_last-append p l z)

length-push_list :
    (l : List Value) (e : Event) → length l ≤ events_max → length (push_list l e) ≤ events_max
unfolding push_list
length-push_list l e h = ground (
  arith,
  length-drop_oldest (length l) (l ++ event_value e ∷ []),
  length-append l (event_value e ∷ []),
)

push_list-first :
    (x : Value) (l : List Value) (e : Event) → (l' : List Value) × (push_list (x ∷ l) e ≡ x ∷ l')
unfolding push_list
push_list-first x l e =
    let (m, kept) = drop_oldest-ends (length (x ∷ l)) x l (event_value e) in
    elim (Bool-cases (collapses (x ∷ l) e)) [
      | inl same ↦ (l, rw same)
      | inr new ↦ (m ++ event_value e ∷ [], rw new kept)
    ]

-- The event is last, unless it repeats the state that was seen last.
push_list-last :
    (l : List Value) (e : Event)
    → collapses l e ≡ false
    → (l' : List Value) × (push_list l e ≡ l' ++ event_value e ∷ [])
unfolding push_list drop_oldest event_value
push_list-last [] e new = ([], rw new)
push_list-last (x ∷ l) e new =
    let (m, kept) = drop_oldest-ends (length (x ∷ l)) x l (event_value e) in (x ∷ m, rw new kept)

is_state_seen-event_value :
    (ts kind : String) (by : Option String) (detail : Option Value)
    → is_state_seen (event_value (record { ts = ts; kind = kind; by = by; detail = detail }))
      ≡ (kind == state_seen)
unfolding event_value is_state_seen get_str lookup
is_state_seen-event_value ts kind none none = refl
is_state_seen-event_value ts kind none (some d) = refl
is_state_seen-event_value ts kind (some b) none = refl
is_state_seen-event_value ts kind (some b) (some d) = refl

get-event_value-detail :
    (ts kind : String) (by : Option String) (detail : Option Value)
    → get "detail" (event_value (record { ts = ts; kind = kind; by = by; detail = detail }))
      ≡ detail
unfolding event_value get
get-event_value-detail ts kind none none = refl
get-event_value-detail ts kind none (some d) = refl
get-event_value-detail ts kind (some b) none = refl
get-event_value-detail ts kind (some b) (some d) = refl

push_list-same : (l : List Value) (e : Event) → collapses l e ≡ true → push_list l e ≡ l
unfolding push_list
push_list-same l e same = rw same

eq_of_same_state :
    (a : Option (Option String)) (b : Option String) → same_state a b ≡ true → a ≡ some b
eq_of_same_state none b h = cc
eq_of_same_state (some none) none h = refl
eq_of_same_state (some none) (some t) h = cc
eq_of_same_state (some (some s)) none h = cc
eq_of_same_state (some (some s)) (some t) h = ap (λ x. some (some x)) ((eq_iff s t).0 h)

same_state_refl : (b : Option String) → same_state (some b) b ≡ true
same_state_refl none = refl
same_state_refl (some s) = eq_refl s

-- After `push` the state seen last is that of a `state-seen` event.
last_state_seen-push_list :
    (l : List Value) (e : Event)
    → e.kind ≡ state_seen
    → last_state_seen (push_list l e) ≡ some (state_of e.detail)
unfolding last_state_seen collapses
last_state_seen-push_list l e seen = elim (Bool-cases (collapses l e)) [
  | inl same ↦ rw (push_list-same l e same) (eq_of_same_state _ _ (&&-eq-true _ _ same).1)
  | inr new ↦
      let (l', last) = push_list-last l e new in
      let is_seen : is_state_seen (event_value e) ≡ true =
        is_state_seen-event_value e.ts e.kind e.by e.detail ∙ (eq_iff _ _).1 seen in
      rw (last, find_last-append, is_seen, get-event_value-detail e.ts e.kind e.by e.detail)
]

abbrev pub events : Record → List Value
events rec = stored_events (meta_object rec.meta)

pub stored_events-push :
    (now kind : String) (by : Option String) (detail : Option Value) (rec : Record)
    → events (push now kind by detail rec)
      ≡ push_list (events rec) (record { ts = now; kind = kind; by = by; detail = detail })
unfolding push stored_events meta_object
stored_events-push now kind by detail rec = rw (lookup-insert, to_list-of_list)

-- A `state-seen` collapses after one with the same state.
collapses-push_list :
    (l : List Value) (e e' : Event)
    → e.kind ≡ state_seen
    → e'.kind ≡ state_seen
    → state_of e.detail ≡ state_of e'.detail
    → collapses (push_list l e) e' ≡ true
unfolding collapses
collapses-push_list l e e' seen seen' same =
    rw ((eq_iff _ _).1 seen', last_state_seen-push_list l e seen, same)
      (same_state_refl (state_of e'.detail))

module _ (now kind : String) (by : Option String) (detail : Option Value) (rec : Record) where
  -- The log never passes its limit: if it is within it before a `push`, it is after.
  pub push-le-events_max :
      length (events rec) ≤ events_max → length (events (push now kind by detail rec)) ≤ events_max
  push-le-events_max h = rw stored_events-push (length-push_list (events rec) _ h)

  -- The first event of a record stays the first.
  pub push-keeps_first :
      (first : Value) (rest : List Value)
      → events rec ≡ first ∷ rest
      → (rest' : List Value) × (events (push now kind by detail rec) ≡ first ∷ rest')
  push-keeps_first first rest e = rw (stored_events-push, e) (push_list-first first rest _)

  -- An event of another kind than `state-seen` is the last of the log after its `push`.
  pub push-is_last :
      kind ≢ state_seen
      → (l : List Value) × (events (push now kind by detail rec)
          ≡ l ++ event_value (record { ts = now; kind = kind; by = by; detail = detail }) ∷ [])
  unfolding collapses
  push-is_last other =
      rw stored_events-push (push_list-last (events rec) _ (ground (arith, eq_iff kind state_seen)))

  -- A `state-seen` that finds the state of the one before leaves the log as it is, however much
  -- later it comes.
  pub push_twice :
      (later : String) (by' : Option String) (detail' : Option Value)
      → kind ≡ state_seen
      → state_of detail ≡ state_of detail'
      → events (push later kind by' detail' (push now kind by detail rec))
        ≡ events (push now kind by detail rec)
  push_twice later by' detail' seen same =
      rw (stored_events-push later, stored_events-push now)
        (push_list-same _ _ (collapses-push_list (events rec) _ _ seen seen same))
