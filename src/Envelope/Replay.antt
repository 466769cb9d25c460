-- ===== src/Envelope/Replay.antt =====
-- src/envelope.rs: the replay window, `is_fresh` and `SeenIds`.
use owlpost.Prelude.{
  ℕ, ◌-◌, String, Bool, true, false, none, some, List, [], ◌∷◌, ◌++◌, ◌==◌, leb, if◌then◌else◌,
  keep, any,
}
use owlpost.Envelope.Time.{parse_rfc3339_to_unix}

abbrev pub replay_window_secs : ℕ
replay_window_secs = 300

abbrev pub seen_ids_ttl_secs : ℕ
seen_ids_ttl_secs = 600

-- `u64::abs_diff`
abbrev abs_diff : ℕ → ℕ → ℕ
abs_diff a b = if leb a b then b - a else a - b

unfoldable pub is_fresh : String → ℕ → ℕ → Bool
is_fresh ts now window = elim (parse_rfc3339_to_unix ts) [
  | none ↦ false
  | some t ↦ leb (abs_diff now t) window
]

abbrev pub SeenIds : Type 0
SeenIds = List (String × ℕ)

unfoldable pub is_seen : String → SeenIds → Bool
is_seen id ids = any (λ e. e.0 == id) ids

-- `SeenIds::load`, on the entries of the file: the expired ones are dropped.
unfoldable pub load_seen : ℕ → SeenIds → SeenIds
load_seen now entries = keep (λ e. leb (now - e.1) seen_ids_ttl_secs) entries

-- `SeenIds::insert`
unfoldable pub insert_seen : String → ℕ → SeenIds → SeenIds × Bool
unfolding is_seen
insert_seen id now ids = if is_seen id ids then (ids, false) else (ids ++ (id, now) ∷ [], true)
