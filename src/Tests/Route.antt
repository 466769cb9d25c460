-- ===== src/Tests/Route.antt =====
-- src/route.rs on small data: one session, and one question that it is to be woken for.
use owlpost.Prelude.Chars.{utf8_width}
use owlpost.Prelude.Assoc.{set_key, find_key}
use owlpost.Route.Sessions.{save_routing, write_wake, remove_wake}
use owlpost.Route.Wakes.{wake_content, wake, candidates, route, checkout_of, project_of}
use owlpost.Envelope.Time.{
  days_from_civil, value, from_fields, is_digit, parse_codes, parse_rfc3339_to_unix,
}
use owlpost.Route.{
  session_pids, is_live, valid_session_id, read_marker, live_markers, Session, RouteFaults, Routes,
  Outside, marker, load_routing,
}
use owlpost.Spool.Names.{FilePath-discrete}
use owlpost.Prelude.{◌≡◌, ◌≢◌, ◌⊎◌, refl, true, false, none, some, [], ◌∷◌}
use owlpost.Prelude.Results.{ok, err}
use owlpost.Record.{Record, inbox}
use owlpost.Error.{Error}
use owlpost.Spool.{get}
use owlpost.Spool.Files.{Disk, written}
use owlpost.Route.Wakes.Routed.{Outcome, route-Outcome}
use owlpost.Route.Lease.{lease_one, is_due}
use owlpost.Route.Lease.Expiry.{lease_one-moves_on}
use owlpost.Route.Fair.{IsFair}
use owlpost.Route.History.{History, start, after, routed_once, routes}
use owlpost.Tests.Data.{codec, external, question, stored, disk_with, config}

abbrev faults : RouteFaults
faults = record {
  mkdir = λ _. false;
  mark = λ _. false;
  stage = λ _ _. written;
  place = λ _ _. false;
  unlink = λ _ _. false;
  sweep = λ _. none;
  save = λ _. false;
  forget = λ _. false;
  list_sessions = false;
  list_routings = false;
}

abbrev session : Session
session = record {
  marker_file = marker (record {
    session_id = "s1";
    cwd = "/src/web";
    started_at = "2001-09-09T01:46:40Z";
    heartbeat_at = "2001-09-09T01:46:40Z";
    source = "startup";
  });
  wake = [];
  tmp = [];
}

abbrev pub no_routes : Routes
no_routes = record { sessions = ("s1", session) ∷ []; routings = []; faults = faults }

abbrev pub outside : Outside
outside = record {
  now = 1000000060;
  stale_secs = 21600;
  claude = [];
  pid_alive = λ _. true;
  canonical = λ p. p;
  table = λ _ _ _. "table";
}

abbrev rec : Record
rec = stored "question" "pending"

abbrev disk : Disk Record
disk = disk_with inbox "q1" rec

is_there : get ⦃c = codec⦄ inbox "q1" disk ≡ ok (some rec)
unfolding get FilePath-discrete
is_there = refl

route-Outcome_example :
    Outcome outside
      (checkout_of outside config (project_of ⦃e = external⦄ ⦃c = codec⦄ disk question))
      "q1"
      rec
      question
      no_routes
      (route ⦃e = external⦄ ⦃c = codec⦄ outside config "q1" disk no_routes)
route-Outcome_example =
    route-Outcome ⦃e = external⦄ ⦃c = codec⦄ outside config "q1" disk no_routes rec question
      is_there refl

abbrev once : Routes
once = (route ⦃e = external⦄ ⦃c = codec⦄ outside config "q1" disk no_routes).1

history : History Record ⦃e = external⦄ ⦃c = codec⦄ no_routes once
history = after start (routes outside config "q1" disk)

routed_once_example : IsFair (load_routing "q1" once)
routed_once_example = routed_once ⦃e = external⦄ ⦃c = codec⦄ refl history "q1"

is_held : (load_routing "q1" once).current ≡ some "s1"
unfolding load_routing find_key route get FilePath-discrete candidates live_markers
    mathlib.Core.List.filter_map read_marker valid_session_id is_live session_pids
    parse_rfc3339_to_unix parse_codes is_digit from_fields value days_from_civil wake wake_content
    write_wake save_routing set_key utf8_width
is_held = refl

lease_is_over : is_due outside 600 [] (load_routing "q1" once) ≡ true
unfolding is_due load_routing find_key route get FilePath-discrete candidates live_markers
    mathlib.Core.List.filter_map read_marker valid_session_id is_live session_pids
    parse_rfc3339_to_unix parse_codes is_digit from_fields value days_from_civil wake wake_content
    write_wake save_routing set_key utf8_width
lease_is_over = refl

lease_one-moves_on_example :
    ((x : Error) × ((route ⦃e = external⦄ ⦃c = codec⦄ outside config "q1" disk
          (remove_wake "s1" "q1" once)).0
        ≡ err x))
    ⊎ ((load_routing "q1"
          (lease_one ⦃e = external⦄ ⦃c = codec⦄ outside config disk 600 [] "q1" once)).current
        ≢ some "s1")
lease_one-moves_on_example =
    lease_one-moves_on ⦃e = external⦄ ⦃c = codec⦄ outside config disk 600 [] "q1" "s1" rec question
      once (routed_once ⦃e = external⦄ ⦃c = codec⦄ refl history) is_there refl refl is_held
      lease_is_over
