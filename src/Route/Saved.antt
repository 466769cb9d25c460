-- ===== src/Route/Saved.antt =====
-- src/route.rs: what is read back after the files of a session or of a routing are written.
use owlpost.Prelude.{String, ◌≡◌, ◌≢◌, refl, ap, ◌∙◌, true, Option, some, List, ◌==◌, eq_iff, arith}
use owlpost.Prelude.Assoc.{find_key, set_key, find-set}
use owlpost.Prelude.Results.{ok}
use owlpost.Spool.Files.{WriteFault, written, untouched, torn}
use owlpost.Route.{Routing, Routes, Session, load_routing, or_default}
use owlpost.Route.Sessions.{
  write_wake, save_routing, placed, session_at, session_or_new, stage_and_place,
}

eq_self : (k : String) → (k == k) ≡ true
eq_self k = (eq_iff k k).1 refl

pub find-set_self :
    {V : Type 0} (k : String) (v : V) (m : List (String × V)) → find_key k (set_key k v m) ≡ some v
find-set_self k v m = find-set k k v m ∙ rw (eq_self k) refl

pub find-set_ne :
    {V : Type 0} (k j : String) (v : V) (m : List (String × V))
    → k ≢ j
    → find_key j (set_key k v m) ≡ find_key j m
find-set_ne k j v m h = ground (arith, eq_iff k j, find-set k j v m)

-- A routing that was saved is read back, and no other changes.
pub load-saved :
    (id : String) (r : Routing) (s : Routes)
    → load_routing id (record s { routings = set_key id (some r) s.routings }) ≡ r
unfolding load_routing
load-saved id r s = ap or_default (find-set_self id (some r) s.routings)

pub load-saved_ne :
    (id other : String) (r : Routing) (s : Routes)
    → id ≢ other
    → load_routing other (record s { routings = set_key id (some r) s.routings })
      ≡ load_routing other s
unfolding load_routing
load-saved_ne id other r s h = ap or_default (find-set_ne id other (some r) s.routings h)

pub save_routing-ok :
    (id : String) (r : Routing) (s : Routes) (u : Unit {0})
    → (save_routing id r s).0 ≡ ok u
    → (save_routing id r s).1 ≡ record s { routings = set_key id (some r) s.routings }
unfolding save_routing
save_routing-ok id r s u h = ground arith

stage_and_place-ok :
    (sid id content : String) (s : Routes) (f : WriteFault String) (u : Unit {0})
    → (stage_and_place sid id content f s).0 ≡ ok u
    → (stage_and_place sid id content f s).1 ≡ placed sid id content s
stage_and_place-ok sid id content s untouched u h = cc
stage_and_place-ok sid id content s (torn left) u h = cc
stage_and_place-ok sid id content s written u h = ground arith

pub write_wake-ok :
    (sid id content : String) (s : Routes) (u : Unit {0})
    → (write_wake sid id content s).0 ≡ ok u
    → (write_wake sid id content s).1 ≡ placed sid id content s
unfolding write_wake
write_wake-ok sid id content s u h =
    ground (arith, stage_and_place-ok sid id content s (s.faults.stage sid id) u)

-- The wake file that was placed is there.
pub wake-placed :
    (sid id content : String) (s : Routes)
    → find_key id (session_at sid (placed sid id content s)).wake ≡ some content
wake-placed sid id content s =
    ap (λ (x : Option Session). find_key id (session_or_new x).wake)
      (find-set_self sid _ s.sessions)
    ∙ find-set_self id content (session_at sid s).wake
