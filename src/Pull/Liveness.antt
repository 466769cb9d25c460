-- ===== src/Pull/Liveness.antt =====
-- src/pull.rs: which responders are probed again. Instants and durations are nanoseconds.
use owlpost.Prelude.{
  ℕ, ◌+◌, ◌-◌, ◌*◌, ◌≤◌, String, ◌≡◌, refl, sym, ◌∙◌, Bool, true, false, not, ◌&&◌, Option, none,
  some, List, [], ◌==◌, if◌then◌else◌, ltb, arith,
}
use owlpost.Prelude.Assoc.{find_key, set_key, find-set}

-- `Probe`, and `Liveness`
pub record Probe : Type 0 where
  pub last_probe : ℕ
  pub answered : Bool

pub record Liveness : Type 0 where
  pub skip : ℕ
  pub map : List (String × Probe)

abbrev pub second : ℕ
second = 1000000000

-- `PROBE_SKIP`
abbrev pub probe_skip : ℕ
probe_skip = 60 * second

-- `Liveness::new`
unfoldable pub new_liveness : ℕ → Liveness
new_liveness skip = record { skip = skip; map = [] }

-- `Liveness::skip_for`
unfoldable pub skip_for : ℕ → ℕ
skip_for interval = (if ltb interval probe_skip then interval else probe_skip) - second

abbrev is_recent_failure : ℕ → ℕ → Option Probe → Bool
is_recent_failure skip now none = false
is_recent_failure skip now (some p) = not p.answered && ltb (now - p.last_probe) skip

-- `Liveness::should_skip`
unfoldable pub should_skip : Liveness → String → ℕ → Bool
should_skip l fingerprint now = is_recent_failure l.skip now (find_key fingerprint l.map)

-- `Liveness::record`
unfoldable pub record_probe : String → Bool → ℕ → Liveness → Liveness
record_probe fingerprint answered at l = record l {
  map = set_key fingerprint (record { last_probe = at; answered = answered }) l.map;
}

-- `Liveness::get`
unfoldable pub get_probe : String → Liveness → Option Probe
get_probe fingerprint l = find_key fingerprint l.map

-- The cache of a daemon that pulls every `interval`, and that last probed no later than `latest`.
pub record IsOf (interval latest : ℕ) (l : Liveness) : Type 0 where
  pub window : l.skip ≡ skip_for interval
  pub past :
      (fingerprint : String) (p : Probe)
      → find_key fingerprint l.map ≡ some p
      → p.last_probe ≤ latest

pub new_liveness-IsOf :
    (interval latest : ℕ) → IsOf interval latest (new_liveness (skip_for interval))
unfolding new_liveness find_key
new_liveness-IsOf interval latest = record { window = refl; past = λ f p e. cc }

probe-of : {p q : Probe} → some p ≡ some q → p.last_probe ≡ q.last_probe
probe-of h = cc

past_of :
    (latest : ℕ) (b : Bool) (new : Probe) (old : Option Probe) (p : Probe)
    → ((q : Probe) → old ≡ some q → q.last_probe ≤ latest)
    → new.last_probe ≤ latest
    → (if b then some new else old) ≡ some p
    → p.last_probe ≤ latest
past_of latest true new old p before now e = omega (arith, probe-of e)
past_of latest false new old p before now e = before p e

pub later-IsOf :
    (interval latest now : ℕ) (l : Liveness)
    → latest ≤ now
    → IsOf interval latest l
    → IsOf interval now l
later-IsOf interval latest now l h v = record {
  window = v.window;
  past = λ f p e. omega (arith, v.past f p e);
}

pub record_probe-IsOf :
    (interval latest : ℕ) (l : Liveness) (fingerprint : String) (answered : Bool)
    → IsOf interval latest l
    → IsOf interval latest (record_probe fingerprint answered latest l)
unfolding record_probe
record_probe-IsOf interval latest l fingerprint answered v = record {
  window = v.window;
  past = λ f p e.
      past_of latest (fingerprint == f) _ (find_key f l.map) p (v.past f) (omega arith)
        (sym (find-set fingerprint f _ l.map) ∙ e);
}

recent-false :
    (skip now : ℕ) (o : Option Probe)
    → ((p : Probe) → o ≡ some p → skip ≤ now - p.last_probe)
    → is_recent_failure skip now o ≡ false
recent-false skip now none h = refl
recent-false skip now (some p) h = ground (arith, h p refl)

-- Where the interval of the pulls is a second at least and a pull begins no earlier than a second less
-- than the interval after the last probe, the cache skips no responder.
pub never_skipped :
    (interval latest now : ℕ) (l : Liveness) (fingerprint : String)
    → second ≤ interval
    → IsOf interval latest l
    → latest + interval ≤ now + second
    → should_skip l fingerprint now ≡ false
unfolding should_skip skip_for
never_skipped interval latest now l fingerprint long v apart =
    recent-false l.skip now (find_key fingerprint l.map)
      (λ p e. ground (arith, v.past fingerprint p e, v.window))
