-- ===== src/Route.antt =====
-- src/route.rs: the sessions that are woken, their markers and wake files, and the routing of a
-- record. The directories under `sessions/` and `spool/routing/` are maps; any change of them may fail.
pub mod Sessions
pub mod Wakes
pub mod Lease
pub mod Saved
pub mod Fair
pub mod History
use owlpost.Prelude.{
  ℕ, ◌-◌, String, codes, Bool, true, false, not, ◌&&◌, ◌||◌, Option, none, some, List, [], ◌∷◌,
  ◌==◌, if◌then◌else◌, leb, ltb, nat_eq, any, all,
}
use mathlib.Core.List.{filter_map}
use owlpost.Prelude.Chars.{byte_len, is_alphanumeric}
use owlpost.Prelude.Assoc.{find_key}
use owlpost.Json.{Value, get, get_str, as_num}
use owlpost.Envelope.{Payload}
use owlpost.Envelope.Time.{parse_rfc3339_to_unix}
use owlpost.Record.{Record}
use owlpost.Answer.Draft.{StoredDraft}
use owlpost.Spool.Files.{WriteFault}

abbrev is_id_char : ℕ → Bool
is_id_char c = is_alphanumeric c || nat_eq c b'.' || nat_eq c b'_' || nat_eq c b'-'

-- `valid_session_id`
unfoldable pub valid_session_id : String → Bool
unfolding byte_len
valid_session_id id =
    leb 1 (byte_len (codes id)) && leb (byte_len (codes id)) 128 && all is_id_char (codes id)

-- `Marker`
pub record Marker : Type 0 where
  pub session_id : String
  pub cwd : String
  pub started_at : String
  pub heartbeat_at : String
  pub source : String

pub data MarkerFile : Type 0 where
  missing unreadable : MarkerFile
  marker : Marker → MarkerFile

-- `sessions/<sid>/`: the marker, and the files of `wake/` and `tmp/` by the ids of their records.
pub record Session : Type 0 where
  pub marker_file : MarkerFile
  pub wake : List (String × String)
  pub tmp : List (String × String)

-- `Routing`
pub record Routing : Type 0 where
  pub current : Option String
  pub routed_at : Option String
  pub tried : List String

-- Which calls fail. `stage` is the write of a file in `tmp/`; `sweep` is what a removal of a session's
-- directory that fails leaves.
pub record RouteFaults : Type 0 where
  pub mkdir : String → Bool
  pub mark : String → Bool
  pub stage : String → String → WriteFault String
  pub place : String → String → Bool
  pub unlink : String → String → Bool
  pub sweep : String → Option Session
  pub save : String → Bool
  pub forget : String → Bool
  pub list_sessions : Bool
  pub list_routings : Bool

-- A routing file that does not parse is `none`.
pub record Routes : Type 0 where
  pub sessions : List (String × Session)
  pub routings : List (String × Option Routing)
  pub faults : RouteFaults

-- What a step takes from outside: the clock, the staleness limit, the files of `~/.claude/sessions` by
-- their extension, the processes, `canonicalize`, and the table of src/render.rs.
pub record Outside : Type 0 where
  pub now : ℕ
  pub stale_secs : ℕ
  pub claude : List (String × Option Value)
  pub pid_alive : ℕ → Bool
  pub canonical : String → String
  pub table : Record → Payload → Option StoredDraft → String

abbrev pub no_routing : Routing
no_routing = record { current = none; routed_at = none; tried = [] }

abbrev pub or_default : Option (Option Routing) → Routing
or_default (some (some r)) = r
or_default _ = no_routing

-- `load_routing`
unfoldable pub load_routing : String → Routes → Routing
load_routing id s = or_default (find_key id s.routings)

abbrev marker_in : Option Session → Option Marker
marker_in none = none
marker_in (some session) = elim session.marker_file [ marker m ↦ some m | _ ↦ none ]

abbrev has_marker_file : Option Session → Bool
has_marker_file none = false
has_marker_file (some session) = elim session.marker_file [ missing ↦ false | _ ↦ true ]

-- `read_marker`
unfoldable pub read_marker : String → Routes → Option Marker
read_marker sid s = if valid_session_id sid then marker_in (find_key sid s.sessions) else none

abbrev pid_in : Option Value → Option ℕ
pid_in none = none
pid_in (some v) = elim (as_num v) [
  | none ↦ none
  | some p ↦ if ltb 0 p && ltb p 4294967296 then some p else none
]

abbrev names_session : String → Option String → Bool
names_session sid none = false
names_session sid (some s) = s == sid

abbrev pid_of : String → String × Option Value → Option ℕ
pid_of sid (extension, none) = none
pid_of sid (extension, some v) =
    if extension == "json" && names_session sid (get_str "sessionId" v)
    then pid_in (get "pid" v)
    else none

-- `session_pids`
unfoldable pub session_pids : Outside → String → List ℕ
unfolding get get_str as_num
session_pids o sid = filter_map (pid_of sid) o.claude

abbrev is_fresh_beat : Outside → Option ℕ → Bool
is_fresh_beat o none = false
is_fresh_beat o (some beat) = ltb (o.now - beat) o.stale_secs

abbrev some_alive : Outside → List ℕ → Bool
some_alive o [] = true
some_alive o (p ∷ ps) = any o.pid_alive (p ∷ ps)

-- `is_live`
unfoldable pub is_live : Outside → Routes → Marker → Bool
is_live o s m =
    valid_session_id m.session_id
    && has_marker_file (find_key m.session_id s.sessions)
    && some_alive o (session_pids o m.session_id)
    && is_fresh_beat o (parse_rfc3339_to_unix m.heartbeat_at)

abbrev live_marker : Outside → Routes → String × Session → Option Marker
live_marker o s (sid, _) = elim (read_marker sid s) [
  | none ↦ none
  | some m ↦ if is_live o s m then some m else none
]

-- `live_markers`
unfoldable pub live_markers : Outside → Routes → List Marker
live_markers o s = if s.faults.list_sessions then [] else filter_map (live_marker o s) s.sessions
