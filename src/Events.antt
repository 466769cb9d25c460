-- ===== src/Events.antt =====
-- src/events.rs: the event log in `meta.events` of a record.
pub mod Push
use owlpost.Prelude.{
  ℕ, zero, suc, String, ◌≡◌, refl, Bool, true, false, ◌&&◌, ◌||◌, Option, none, some, List, [], ◌∷◌,
  ◌++◌, ltb, if◌then◌else◌, length, ◌==◌,
}
use mathlib.Core.List.{filter_map}
use owlpost.Json
use owlpost.Json.{
  Value, Map, null, str, arr, obj, empty, lookup, insert, get, get_str, str_of, to_list, of_list,
  lookup_str,
}
use owlpost.Record.{Record, Dir, asks, meta_object, with_meta}

abbrev pub events_max : ℕ
events_max = 200

abbrev pub state_seen : String
state_seen = "state-seen"

pub record Event : Type 0 where
  pub ts : String
  pub kind : String
  pub by : Option String
  pub detail : Option Value

abbrev insert_some : String → Option Value → Map → Map
insert_some k none m = m
insert_some k (some v) m = insert k v m

abbrev pub text : Option String → Option Value
text none = none
text (some s) = some (str s)

-- `serde_json::to_value` of an event: `by` and `detail` are left out when absent.
pub event_value : Event → Value
unfolding insert
event_value e = obj (
    insert_some "detail" e.detail
      (insert_some "by" (text e.by) (insert "kind" (str e.kind) (insert "ts" (str e.ts) empty))))

-- The array in `meta.events`; anything else is replaced by a fresh one.
abbrev as_list : Option Value → List Value
as_list (some (arr vs)) = to_list vs
as_list _ = []

unfoldable pub stored_events : Map → List Value
stored_events m = as_list (lookup "events" m)

-- `iter().rev().find(p)`
unfoldable pub find_last {ℓ} : {A : Type ℓ} → (A → Bool) → List A → Option A
find_last p [] = none
find_last p (x ∷ xs) = elim (find_last p xs) [
  | some y ↦ some y
  | none ↦ if p x then some x else none
]

abbrev is_text : String → Option String → Bool
is_text s none = false
is_text s (some t) = t == s

pub is_state_seen : Value → Bool
is_state_seen v = is_text state_seen (get_str "kind" v)

abbrev get_in : String → Option Value → Option Value
get_in k none = none
get_in k (some v) = get k v

-- `detail.state`
pub state_of : Option Value → Option String
state_of detail = str_of (get_in "state" detail)

abbrev map_state : Option Value → Option (Option String)
map_state none = none
map_state (some v) = some (state_of (get "detail" v))

pub last_state_seen : List Value → Option (Option String)
last_state_seen l = map_state (find_last is_state_seen l)

abbrev same_state : Option (Option String) → Option String → Bool
same_state (some (some s)) (some t) = s == t
same_state (some none) none = true
same_state _ _ = false

-- `list.remove(1)`
abbrev pub remove_second {ℓ} : {A : Type ℓ} → List A → List A
remove_second (x ∷ y ∷ xs) = x ∷ xs
remove_second xs = xs

-- `while list.len() > EVENTS_MAX`; every round takes one event out, so the length is enough fuel.
pub drop_oldest {ℓ} : {A : Type ℓ} → ℕ → List A → List A
drop_oldest zero l = l
drop_oldest (suc fuel) l =
    let rest = drop_oldest fuel (remove_second l) in if ltb events_max (length l) then rest else l

-- A `state-seen` that repeats the state seen last.
pub collapses : List Value → Event → Bool
collapses l e = e.kind == state_seen && same_state (last_state_seen l) (state_of e.detail)

-- The list that `push` leaves in `meta.events`.
pub push_list : List Value → Event → List Value
push_list l e = if collapses l e then l else drop_oldest (length l) (l ++ event_value e ∷ [])

-- `push`, at the time `now`
unfoldable pub push : String → String → Option String → Option Value → Record → Record
push now kind by detail rec =
    let m = meta_object rec.meta in
    let e : Event = record { ts = now; kind = kind; by = by; detail = detail } in
    with_meta (insert "events" (arr (of_list (push_list (stored_events m) e))) m) rec

abbrev is_asks : Dir → Bool
is_asks asks = true
is_asks _ = false

abbrev born : Dir → Record → Event
born dir rec = record {
  ts = rec.received_at;
  kind = if is_asks dir then "asked" else "received";
  by = none;
  detail = none;
}

-- The kind and detail of the closing event of a legacy record, by its state.
pub closing : Dir → String → Option (String × Option Value)
closing dir state =
    if state == "answered"
    then some (if is_asks dir then "answer-received" else "sent", none)
    else if state == "rejected"
    then some ("rejected", none)
    else if state == "denied"
    then some ("denied", none)
    else if state == "declined"
    then some ("denied", some (obj (insert "by" (str "peer") empty)))
    else if state == "acked" || state == "expired"
    then some ("sent", none)
    else none

abbrev closed_at : Option String → Option (String × Option Value) → List Event
closed_at (some at) (some (kind, detail)) =
    record { ts = at; kind = kind; by = none; detail = detail } ∷ []
closed_at _ _ = []

pub derived : Dir → Record → List Event
derived dir rec = born dir rec ∷ closed_at (get_str "done_at" rec.meta) (closing dir rec.state)

abbrev or_derived : (Value → Option Event) → Dir → Record → List Value → List Event
or_derived from_value dir rec [] = derived dir rec
or_derived from_value dir rec (v ∷ vs) = filter_map from_value (v ∷ vs)

-- `of`: the stored log if there is one, else the derived one. `from_value` is serde's reading of an
-- event.
unfoldable pub of : (from_value : Value → Option Event) → Dir → Record → List Event
of from_value dir rec = or_derived from_value dir rec (as_list (get "events" rec.meta))
