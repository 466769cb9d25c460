-- ===== src/Route/Sessions.antt =====
-- src/route.rs: the operations on the directory of a session and on the file of a routing.
use owlpost.Prelude.{
  String, Bool, not, ◌&&◌, Option, none, some, List, [], ◌∷◌, ◌==◌, if◌then◌else◌, any, map,
}
use owlpost.Prelude.Assoc.{find_key, set_key, delete_key, keys}
use owlpost.Prelude.Results.{ok, err}
use owlpost.Prelude.Exec.{Exec}
use owlpost.Error.{Error, message}
use owlpost.Envelope.Time.{unix_to_rfc3339}
use owlpost.Spool.Files.{WriteFault, written, untouched, torn}
use owlpost.Route.{
  Marker, missing, marker, Session, Routing, Routes, Outside, valid_session_id, read_marker,
  live_markers,
}

abbrev no_session : Session
no_session = record { marker_file = missing; wake = []; tmp = [] }

abbrev pub session_or_new : Option Session → Session
session_or_new none = no_session
session_or_new (some session) = session

abbrev pub session_at : String → Routes → Session
session_at sid s = session_or_new (find_key sid s.sessions)

abbrev pub set_session : String → Session → Routes → Routes
set_session sid session s = record s { sessions = set_key sid session s.sessions }

abbrev bad_id : Error
bad_id = message "session id must match [A-Za-z0-9._-]{1,128}"

-- `Marker::new`
unfoldable pub new_marker : Outside → (sid cwd source : String) → Marker
new_marker o sid cwd source = record {
  session_id = sid;
  cwd = o.canonical cwd;
  started_at = unix_to_rfc3339 o.now;
  heartbeat_at = unix_to_rfc3339 o.now;
  source = source;
}

-- `write_marker`
unfoldable pub write_marker : Marker → Exec Error Routes Unit
write_marker m s =
    if not (valid_session_id m.session_id)
    then (err bad_id, s)
    else if s.faults.mkdir m.session_id
    then (err (message "creating"), s)
    else if s.faults.mark m.session_id
    then (
      err (message "writing the marker"),
      set_session m.session_id (session_at m.session_id s) s,
    )
    else (
      ok tt,
      set_session m.session_id (record (session_at m.session_id s) { marker_file = marker m }) s,
    )

abbrev pub touched : Outside → Option Marker → Exec Error Routes Unit
touched o none s = (ok tt, s)
touched o (some m) s = write_marker (record m { heartbeat_at = unix_to_rfc3339 o.now }) s

-- `touch_heartbeat`
unfoldable pub touch_heartbeat : Outside → String → Exec Error Routes Unit
touch_heartbeat o sid s = touched o (read_marker sid s) s

abbrev swept : String → Option Session → Routes → Routes
swept sid none s = record s { sessions = delete_key sid s.sessions }
swept sid (some left) s = set_session sid left s

-- `std::fs::remove_dir_all` of a session's directory
abbrev pub remove_dir : String → Routes → Routes
remove_dir sid s = elim (find_key sid s.sessions) [
  | none ↦ s
  | some _ ↦ swept sid (s.faults.sweep sid) s
]

-- `remove_session`
unfoldable pub remove_session : String → Routes → Routes
remove_session sid s = if valid_session_id sid then remove_dir sid s else s

abbrev pub contains : String → List String → Bool
contains x xs = any (λ y. y == x) xs

abbrev pub live_ids : Outside → Routes → List String
live_ids o s = map (λ (m : Marker). m.session_id) (live_markers o s)

-- The loop of `sweep_sessions`
unfoldable pub sweep_each : List String → List String → Routes → Routes
sweep_each live [] s = s
sweep_each live (sid ∷ sids) s =
    sweep_each live sids
      (if valid_session_id sid && not (contains sid live) then remove_dir sid s else s)

-- `sweep_sessions`
unfoldable pub sweep_sessions : Outside → Routes → Routes
unfolding sweep_each
sweep_sessions o s =
    if s.faults.list_sessions then s else sweep_each (live_ids o s) (keys s.sessions) s

abbrev pub placed : String → String → String → Routes → Routes
placed sid id content s =
    set_session sid
      (record (session_at sid s) {
        wake = set_key id content (session_at sid s).wake;
        tmp = delete_key id (session_at sid s).tmp;
      })
      s

abbrev staged : String → String → String → Routes → Routes
staged sid id content s =
    set_session sid (record (session_at sid s) { tmp = set_key id content (session_at sid s).tmp })
      s

-- `let _ = std::fs::remove_file(…)` in `tmp/`
abbrev unstaged : String → String → Routes → Routes
unstaged sid id s =
    if s.faults.unlink sid id
    then s
    else set_session sid (record (session_at sid s) { tmp = delete_key id (session_at sid s).tmp })
        s

abbrev pub stage_and_place : String → String → String → WriteFault String → Exec Error Routes Unit
stage_and_place sid id content untouched s = (err (message "writing"), s)
stage_and_place sid id content (torn left) s = (err (message "writing"), staged sid id left s)
stage_and_place sid id content written s =
    if s.faults.place sid id
    then (err (message "renaming"), unstaged sid id (staged sid id content s))
    else (ok tt, placed sid id content s)

-- `write_wake`: staged in `tmp/`, then renamed.
unfoldable pub write_wake : (sid id content : String) → Exec Error Routes Unit
write_wake sid id content s =
    if not (valid_session_id sid)
    then (err bad_id, s)
    else if s.faults.mkdir sid
    then (err (message "creating"), s)
    else stage_and_place sid id content (s.faults.stage sid id) s

-- `remove_wake`; the two files are removed, or neither is.
unfoldable pub remove_wake : (sid id : String) → Routes → Routes
remove_wake sid id s = elim (find_key sid s.sessions) [
  | none ↦ s
  | some session ↦
      if valid_session_id sid && not (s.faults.unlink sid id)
      then set_session sid
          (record session { wake = delete_key id session.wake; tmp = delete_key id session.tmp }) s
      else s
]

-- `save_routing`: atomic, so a failure leaves the file as it was.
unfoldable pub save_routing : String → Routing → Exec Error Routes Unit
save_routing id routing s =
    if s.faults.save id
    then (err (message "saving the routing"), s)
    else (ok tt, record s { routings = set_key id (some routing) s.routings })

-- `remove_routing`
unfoldable pub remove_routing : String → Routes → Routes
remove_routing id s =
    if s.faults.forget id then s else record s { routings = delete_key id s.routings }

abbrev pub remove_wakes : String → List String → Routes → Routes
remove_wakes id [] s = s
remove_wakes id (sid ∷ sids) s = remove_wakes id sids (remove_wake sid id s)

-- `release`
unfoldable pub release : String → Routes → Routes
unfolding remove_wake remove_routing
release id s =
    remove_routing id (if s.faults.list_sessions then s else remove_wakes id (keys s.sessions) s)
