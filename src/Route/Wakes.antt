-- ===== src/Route/Wakes.antt =====
-- src/route.rs: `route`, which hands a record to one live session.
pub mod Target
pub mod Routed
use Prim.Native.String.{◌++◌ as append}
use owlpost.Prelude.{
  ℕ, ◌<◌, String, Bool, true, false, not, ◌&&◌, Option, none, some, List, [], ◌∷◌, ◌++◌, ◌==◌,
  if◌then◌else◌, ltb, keep, str_le, is_some, any,
}
use owlpost.Prelude.Order.{sort_with, head}
use owlpost.Prelude.Results
use owlpost.Prelude.Results.{Result, ok, err, ok_or}
use owlpost.Prelude.Exec.{Exec, continue}
use owlpost.Record.{Record, Dir, inbox, asks, done}
use owlpost.Error.{Error, bad_payload}
use owlpost.Config.{Config}
use owlpost.Config
use owlpost.Envelope.{Payload, Body}
use owlpost.Envelope.Time.{parse_rfc3339_to_unix, unix_to_rfc3339}
use owlpost.External.{External}
use owlpost.Answer.Draft.{StoredDraft, draft_in}
use owlpost.Spool.{get}
use owlpost.Spool.Files.{Codec, Disk}
use owlpost.Route.{Marker, Routing, Routes, Outside, load_routing, live_markers}
use owlpost.Route.Sessions.{contains, write_wake, save_routing, release}

abbrev readable_record : Result Error (Option Record) → Option Record
readable_record (ok found) = found
readable_record (err e) = none

abbrev or_in {ℓ} : {A : Type ℓ} → Option A → Option A → Option A
or_in none b = b
or_in (some a) b = some a

abbrev parsed_raw : ⦃e : External⦄ → Option Record → Option Payload
parsed_raw none = none
parsed_raw ⦃e⦄ (some rec) = e.parse_payload rec.raw

-- `render::find_question`
unfoldable pub find_question :
    {B : Type 0} ⦃e : External⦄ ⦃c : Codec B⦄ → Disk B → String → Option Payload
find_question d id = parsed_raw (
    or_in (readable_record (get done id d))
      (or_in (readable_record (get asks id d)) (readable_record (get inbox id d))))

abbrev or_empty : Option String → String
or_empty none = ""
or_empty (some s) = s

-- The project of a request
abbrev request_project : Body → Option String
request_project (Body.question project _ _ _) = some project
request_project (Body.content project _ _ _) = some (or_empty project)
request_project (Body.tool_call _ _ project) = some (or_empty project)
request_project _ = none

abbrev project_in : Option Payload → Option String
project_in none = none
project_in (some payload) = request_project payload.body

abbrev filled : Option String → Option String
filled none = none
filled (some s) = if s == "" then none else some s

module _ {B : Type 0} ⦃e : External⦄ ⦃c : Codec B⦄ where
  abbrev question_for : Disk B → Option String → Option Payload
  question_for d none = none
  question_for d (some q) = find_question d q

  -- `project_of`
  unfoldable pub project_of : Disk B → Payload → Option String
  project_of d payload =
      filled
        (or_in (request_project payload.body) (project_in (question_for d payload.in_reply_to)))

abbrev pub checkout_of : Outside → Config → Option String → Option String
checkout_of o config none = none
checkout_of o config (some project) = elim (Config.get project config.projects) [
  | none ↦ none
  | some path ↦ some (o.canonical path)
]

-- The key by which the candidates are sorted.
pub record Rank : Type 0 where
  pub elsewhere : Bool
  pub beat : ℕ
  pub sid : String

abbrev pub or_zero : Option ℕ → ℕ
or_zero none = 0
or_zero (some n) = n

abbrev is_elsewhere : Outside → Option String → Marker → Bool
is_elsewhere o none m = false
is_elsewhere o (some checkout) m = not (o.canonical m.cwd == checkout)

abbrev pub rank_of : Outside → Option String → Marker → Rank
rank_of o checkout m = record {
  elsewhere = is_elsewhere o checkout m;
  beat = or_zero (parse_rfc3339_to_unix m.heartbeat_at);
  sid = m.session_id;
}

-- `(elsewhere, Reverse(beat), session_id)`
unfoldable pub rank_le : Rank → Rank → Bool
rank_le a b =
    if a.elsewhere && not b.elsewhere
    then false
    else if b.elsewhere && not a.elsewhere
    then true
    else if ltb b.beat a.beat
    then true
    else if ltb a.beat b.beat
    then false
    else str_le a.sid b.sid

abbrev pub is_untried : Routing → Marker → Bool
is_untried routing m = not (contains m.session_id routing.tried)

-- The live sessions that the record was not offered to yet, the best first.
unfoldable pub candidates : Outside → Option String → Routing → Routes → List Marker
unfolding sort_with rank_le
candidates o checkout routing s =
    sort_with (λ a b. rank_le (rank_of o checkout a) (rank_of o checkout b))
      (keep (is_untried routing) (live_markers o s))

abbrev pub wake_instruction : String
wake_instruction =
    "Show the table below to the user exactly as it is — nothing before it, nothing inside it, one line after it offering /owlpost:inbox. Do not answer, draft, summarise or comment."

-- `wake_content`
unfoldable pub wake_content : Outside → Record → Payload → Result Error String
unfolding draft_in
wake_content o rec payload = Results.◌>>=◌ (draft_in rec.draft) λ (draft : Option StoredDraft).
    ok (append wake_instruction (append "\n\n" (append (o.table rec payload draft) "\n")))

-- A routing without a session.
abbrev pub unrouted : Routing → Routing
unrouted r = record r { current = none; routed_at = none }

abbrev pub is_idle : Routing → Bool
is_idle r = not (is_some r.current) && not (is_some r.routed_at)

-- The routing of a record that goes to `sid`.
abbrev pub routed_to : Outside → String → Routing → Routing
routed_to o sid r = record r {
  current = some sid;
  routed_at = some (unix_to_rfc3339 o.now);
  tried = if contains sid r.tried then r.tried else r.tried ++ sid ∷ [];
}

abbrev pub no_target : String → Routing → Exec Error Routes (Option String)
no_target id before s =
    if is_idle before
    then (ok none, s)
    else continue (save_routing id (unrouted before) s) (λ _ s'. (ok none, s'))

module _ (o : Outside) where
  -- The wake file first, then the routing.
  unfoldable pub wake :
      String → Record → Payload → Routing → Marker → Exec Error Routes (Option String)
  wake id rec payload before target s =
      continue (wake_content o rec payload, s)
        λ (content : String) s1. continue (write_wake target.session_id id content s1) λ _ s2.
          continue (save_routing id (routed_to o target.session_id before) s2)
            λ _ s3. (ok (some target.session_id), s3)

  abbrev pub wake_first :
      String → Record → Payload → Routing → Option Marker → Exec Error Routes (Option String)
  wake_first id rec payload before none = no_target id before
  wake_first id rec payload before (some target) = wake id rec payload before target

module _ {B : Type 0} ⦃e : External⦄ ⦃c : Codec B⦄ (o : Outside) (config : Config) where
  abbrev pub route_payload : String → Record → Payload → Disk B → Exec Error Routes (Option String)
  route_payload id rec payload d s =
      let before = load_routing id s in
      wake_first o id rec payload before
        (head (candidates o (checkout_of o config (project_of d payload)) before s)) s

  abbrev pub route_found : String → Disk B → Option Record → Exec Error Routes (Option String)
  route_found id d none s = (ok none, release id s)
  route_found id d (some rec) s =
      continue (ok_or (e.parse_payload rec.raw) (bad_payload id), s)
        λ (payload : Payload). route_payload id rec payload d

  -- `route`
  unfoldable pub route : String → Disk B → Exec Error Routes (Option String)
  route id d s = continue (get inbox id d, s) (route_found id d)
