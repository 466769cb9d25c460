-- ===== src/Route/Lease.antt =====
-- src/route.rs: the start and the end of a session, and one tick of the lease loop.
pub mod Expiry
use Prim.Native.String.{◌++◌ as append}
use owlpost.Prelude.{
  ℕ, ◌-◌, String, Bool, true, false, not, Option, none, some, List, [], ◌∷◌, ◌==◌, if◌then◌else◌,
  ltb, sort_by,
}
use owlpost.Prelude.Assoc.{keys}
use owlpost.Prelude.Results.{Result, ok, err}
use owlpost.Record.{Record, Dir, inbox}
use owlpost.Error.{Error}
use owlpost.Config.{Config}
use owlpost.Envelope.{Payload}
use owlpost.Envelope.Time.{parse_rfc3339_to_unix}
use owlpost.External.{External}
use owlpost.Spool.{Entry, get, list_lenient}
use owlpost.Spool.Files.{Codec, Disk}
use owlpost.Route.{Marker, Routing, Routes, Outside, load_routing, valid_session_id}
use owlpost.Route.Sessions.{contains, live_ids, remove_session, remove_wake, save_routing, release}
use owlpost.Route.Wakes.{routed_to, unrouted, or_zero, route}

-- Whether the session that holds a record is among the live ones.
abbrev pub is_held : List String → Option String → Bool
is_held live none = false
is_held live (some sid) = contains sid live

-- `let _ = save_routing(…)`
abbrev pub saved : String → Routing → Routes → Routes
saved id r s = (save_routing id r s).1

-- One record of the loop of `assign_backlog`
unfoldable pub assign : Outside → List String → String → Entry → Routes → Routes
assign o live sid (id, rec) s =
    if rec.seen
    then s
    else if is_held live (load_routing id s).current
    then s
    else saved id (routed_to o sid (load_routing id s)) s

unfoldable pub assign_each : Outside → List String → String → List Entry → Routes → Routes
assign_each o live sid [] s = s
assign_each o live sid (entry ∷ entries) s =
    assign_each o live sid entries (assign o live sid entry s)

abbrev pub assign_all : Outside → String → Result Error (List Entry) → Routes → Routes
assign_all o sid (err e) s = s
assign_all o sid (ok entries) s = assign_each o (live_ids o s) sid entries s

-- `assign_backlog`
unfoldable pub assign_backlog :
    {B : Type 0} ⦃c : Codec B⦄ → Outside → Disk B → String → Routes → Routes
unfolding list_lenient assign_each
assign_backlog o d sid s =
    if valid_session_id sid then assign_all o sid (list_lenient inbox d) s else s

abbrev is_session : String → Option String → Bool
is_session sid none = false
is_session sid (some c) = c == sid

unfoldable pub clear_one : String → String → Routes → Routes
clear_one sid id s =
    if is_session sid (load_routing id s).current
    then saved id (unrouted (load_routing id s)) s
    else s

unfoldable pub clear_each : String → List String → Routes → Routes
clear_each sid [] s = s
clear_each sid (id ∷ ids) s = clear_each sid ids (clear_one sid id s)

-- `end_session`
unfoldable pub end_session : String → Routes → Routes
unfolding clear_each remove_session
end_session sid s =
    if valid_session_id sid
    then (let s' = remove_session sid s in
        if s'.faults.list_routings then s' else clear_each sid (keys s'.routings) s')
    else s

abbrev beat_of : Option String → ℕ
beat_of none = 0
beat_of (some t) = or_zero (parse_rfc3339_to_unix t)

-- Whether the record has to go to another session.
unfoldable pub is_due : Outside → (lease_secs : ℕ) → List String → Routing → Bool
is_due o lease_secs live r = elim r.current [
  | none ↦ true
  | some sid ↦ if contains sid live then ltb lease_secs (o.now - beat_of r.routed_at) else true
]

abbrev pub take_down : String → Option String → Routes → Routes
take_down id none s = s
take_down id (some sid) s = remove_wake sid id s

module _ {B : Type 0} ⦃e : External⦄ ⦃c : Codec B⦄ (o : Outside) (config : Config) (d : Disk B)
    (lease_secs : ℕ) (live : List String) where
  -- A due record is taken from its session and routed again.
  abbrev pub reroute : String → Routes → Routes
  reroute id s =
      if is_due o lease_secs live (load_routing id s)
      then (route o config id d (take_down id (load_routing id s).current s)).1
      else s

  abbrev pub lease_payload : String → Option Payload → Routes → Routes
  lease_payload id none s = s
  lease_payload id (some payload) s = reroute id s

  abbrev pub lease_found : String → Result Error (Option Record) → Routes → Routes
  lease_found id (err _) s = s
  lease_found id (ok none) s = release id s
  lease_found id (ok (some rec)) s =
      if rec.seen then s else lease_payload id (e.parse_payload rec.raw) s

  unfoldable pub lease_one : String → Routes → Routes
  lease_one id s = lease_found id (get inbox id d) s

  unfoldable pub lease_each : List String → Routes → Routes
  lease_each [] s = s
  lease_each (id ∷ ids) s = lease_each ids (lease_one id s)

abbrev pub file_name : String → String
file_name id = append id ".json"

-- `lease_tick`: over the routings in the order of their names.
unfoldable pub lease_tick :
    {B : Type 0} ⦃e : External⦄ ⦃c : Codec B⦄
    → Outside
    → Config
    → Disk B
    → (lease_secs : ℕ) → Routes
    → Routes
unfolding lease_each sort_by
lease_tick o config d lease_secs s =
    if s.faults.list_routings
    then s
    else lease_each o config d lease_secs (live_ids o s) (sort_by file_name (keys s.routings)) s
