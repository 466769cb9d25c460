-- ===== src/Route/History.antt =====
-- src/route.rs: the routings after any history of the operations.
use owlpost.Prelude.{
  ℕ, String, ◌≡◌, refl, subst, sym, not, ◌&&◌, Option, none, some, List, [], ◌∷◌, sort_by,
}
use owlpost.Prelude.Assoc.{keys, find_key}
use owlpost.Prelude.Results.{Result, ok, err}
use owlpost.Record.{Record, inbox}
use owlpost.Error.{Error}
use owlpost.Config.{Config}
use owlpost.Envelope.{Payload}
use owlpost.External.{External}
use owlpost.Spool.{Entry, get, list_lenient}
use owlpost.Spool.Files.{Codec, Disk}
use owlpost.Route.{
  Marker, Routes, RouteFaults, Outside, load_routing, or_default, valid_session_id, read_marker,
}
use owlpost.Route.Sessions.{
  contains, write_marker, touch_heartbeat, remove_session, sweep_sessions, sweep_each, live_ids,
  touched, release,
}
use owlpost.Route.Wakes.{route}
use owlpost.Route.Lease.{
  assign_backlog, assign, assign_each, assign_all, end_session, clear_one, clear_each, lease_tick,
  lease_each, lease_one, lease_found, lease_payload, take_down, is_due, is_held, file_name,
}
use owlpost.Route.Fair.{
  IsFair, Fair, same-Fair, choose-Fair, no_routing-IsFair, remove_wake-Fair, release-Fair,
  saved_to-Fair, saved_none-Fair, route-Fair, write_marker-routings, remove_session-routings,
  remove_dir-routings,
}

-- The operations of src/route.rs, at any time and on any state of the spool; which calls fail may
-- change between any two of them.
pub data Step (B : Type 0) ⦃e : External⦄ ⦃c : Codec B⦄ (s : Routes) : Routes → Type 0 where
  routes :
      (o : Outside) (config : Config) (id : String) (d : Disk B)
      → Step B s (route o config id d s).1
  releases : (id : String) → Step B s (release id s)
  ticks :
      (o : Outside) (config : Config) (d : Disk B) (lease_secs : ℕ)
      → Step B s (lease_tick o config d lease_secs s)
  assigns : (o : Outside) (d : Disk B) (sid : String) → Step B s (assign_backlog o d sid s)
  ends : (sid : String) → Step B s (end_session sid s)
  marks : (m : Marker) → Step B s (write_marker m s).1
  touches : (o : Outside) (sid : String) → Step B s (touch_heartbeat o sid s).1
  sweeps : (o : Outside) → Step B s (sweep_sessions o s)
  fails : (f : RouteFaults) → Step B s (record s { faults = f })

pub data History (B : Type 0) ⦃e : External⦄ ⦃c : Codec B⦄ (s : Routes) : Routes → Type 0 where
  start : History B s s
  after : {t u : Routes} → History B s t → Step B t u → History B s u

write_marker-Fair : (m : Marker) (s : Routes) → Fair s → Fair (write_marker m s).1
write_marker-Fair m s = same-Fair s _ (write_marker-routings m s)

touched-Fair :
    (o : Outside) (found : Option Marker) (s : Routes) → Fair s → Fair (touched o found s).1
touched-Fair o none s f = f
touched-Fair o (some m) s f = write_marker-Fair _ s f

sweep_each-Fair : (live sids : List String) (s : Routes) → Fair s → Fair (sweep_each live sids s)
unfolding sweep_each
sweep_each-Fair live [] s f = f
sweep_each-Fair live (sid ∷ sids) s f = sweep_each-Fair live sids _ (
    choose-Fair (valid_session_id sid && not (contains sid live)) _ _
      (same-Fair s _ (remove_dir-routings sid s) f) f)

assign-Fair :
    (o : Outside) (live : List String) (sid : String) (entry : Entry) (s : Routes)
    → Fair s
    → Fair (assign o live sid entry s)
unfolding assign
assign-Fair o live sid (id, rec) s f =
    choose-Fair rec.seen _ _ f
      (choose-Fair (is_held live (load_routing id s).current) _ _ f (saved_to-Fair o sid id s f))

assign_each-Fair :
    (o : Outside) (live : List String) (sid : String) (l : List Entry) (s : Routes)
    → Fair s
    → Fair (assign_each o live sid l s)
unfolding assign_each
assign_each-Fair o live sid [] s f = f
assign_each-Fair o live sid (x ∷ l) s f =
    assign_each-Fair o live sid l _ (assign-Fair o live sid x s f)

assign_all-Fair :
    (o : Outside) (sid : String) (r : Result Error (List Entry)) (s : Routes)
    → Fair s
    → Fair (assign_all o sid r s)
assign_all-Fair o sid (err x) s f = f
assign_all-Fair o sid (ok l) s f = assign_each-Fair o _ sid l s f

clear_one-Fair : (sid id : String) (s : Routes) → Fair s → Fair (clear_one sid id s)
unfolding clear_one
clear_one-Fair sid id s f = choose-Fair _ _ _ (saved_none-Fair id s f) f

clear_each-Fair :
    (sid : String) (ids : List String) (s : Routes) → Fair s → Fair (clear_each sid ids s)
unfolding clear_each
clear_each-Fair sid [] s f = f
clear_each-Fair sid (id ∷ ids) s f = clear_each-Fair sid ids _ (clear_one-Fair sid id s f)

take_down-Fair :
    (id : String) (current : Option String) (s : Routes) → Fair s → Fair (take_down id current s)
take_down-Fair id none s f = f
take_down-Fair id (some sid) s f = remove_wake-Fair sid id s f

end_session-Fair : (sid : String) (s : Routes) → Fair s → Fair (end_session sid s)
unfolding end_session
end_session-Fair sid s f =
    let s' = remove_session sid s in
    let f1 = same-Fair s s' (remove_session-routings sid s) f in
    choose-Fair (valid_session_id sid) _ s
      (choose-Fair s'.faults.list_routings s' _ f1 (clear_each-Fair sid (keys s'.routings) s' f1)) f

empty-Fair : (s : Routes) → s.routings ≡ [] → Fair s
unfolding load_routing find_key
empty-Fair s e id = subst (λ m. IsFair (or_default (find_key id m))) (sym e) no_routing-IsFair

module _ {B : Type 0} ⦃e : External⦄ ⦃c : Codec B⦄ where
  module _ (o : Outside) (config : Config) (d : Disk B) (lease_secs : ℕ) (live : List String)
      (id : String) where
    lease_payload-Fair :
        (found : Option Payload) (s : Routes)
        → Fair s
        → Fair (lease_payload o config d lease_secs live id found s)
    lease_payload-Fair none s f = f
    lease_payload-Fair (some payload) s f =
        choose-Fair (is_due o lease_secs live (load_routing id s)) _ _
          (route-Fair o config id d _ (take_down-Fair id (load_routing id s).current s f)) f

    lease_found-Fair :
        (r : Result Error (Option Record)) (s : Routes)
        → Fair s
        → Fair (lease_found o config d lease_secs live id r s)
    lease_found-Fair (err x) s f = f
    lease_found-Fair (ok none) s f = release-Fair id s f
    lease_found-Fair (ok (some rec)) s f =
        choose-Fair rec.seen _ _ f (lease_payload-Fair (e.parse_payload rec.raw) s f)

    lease_one-Fair : (s : Routes) → Fair s → Fair (lease_one o config d lease_secs live id s)
    unfolding lease_one
    lease_one-Fair s f = lease_found-Fair (get inbox id d) s f

  lease_each-Fair :
      (o : Outside) (config : Config) (d : Disk B) (lease_secs : ℕ) (live ids : List String)
      (s : Routes)
      → Fair s
      → Fair (lease_each o config d lease_secs live ids s)
  unfolding lease_each
  lease_each-Fair o config d lease_secs live [] s f = f
  lease_each-Fair o config d lease_secs live (id ∷ ids) s f =
      lease_each-Fair o config d lease_secs live ids _
        (lease_one-Fair o config d lease_secs live id s f)

  Step-Fair : {s t : Routes} → Step B s t → Fair s → Fair t
  unfolding lease_tick assign_backlog touch_heartbeat sweep_sessions
  Step-Fair {s} (routes o config id d) f = route-Fair o config id d s f
  Step-Fair {s} (releases id) f = release-Fair id s f
  Step-Fair {s} (ticks o config d lease_secs) f = choose-Fair s.faults.list_routings s _ f (
      lease_each-Fair o config d lease_secs (live_ids o s) (sort_by file_name (keys s.routings)) s
        f)
  Step-Fair {s} (assigns o d sid) f =
      choose-Fair (valid_session_id sid) _ s (assign_all-Fair o sid (list_lenient inbox d) s f) f
  Step-Fair {s} (ends sid) f = end_session-Fair sid s f
  Step-Fair {s} (marks m) f = write_marker-Fair m s f
  Step-Fair {s} (touches o sid) f = touched-Fair o (read_marker sid s) s f
  Step-Fair {s} (fails g) f = same-Fair s _ refl f
  Step-Fair {s} (sweeps o) f =
      choose-Fair s.faults.list_sessions s _ f
        (sweep_each-Fair (live_ids o s) (keys s.sessions) s f)

  pub History-Fair : {s t : Routes} → History B s t → Fair s → Fair t
  History-Fair start f = f
  History-Fair (after h step) f = Step-Fair step (History-Fair h f)

  -- Where there was no routing at the start, then after any sequence of routings, releases, ticks of the
  -- lease loop, starts and ends of sessions, heartbeats and sweeps, where the calls that fail may be
  -- others at every step, no session stands twice among those that a record was offered to, and the
  -- session that holds a record is among them.
  pub routed_once :
      {s t : Routes} → s.routings ≡ [] → History B s t → (id : String) → IsFair (load_routing id t)
  routed_once {s} e h = History-Fair h (empty-Fair s e)
