-- ===== src/Server/State.antt =====
-- src/server.rs: the state of the daemon's API, and the token buckets.
use owlpost.Prelude.{
  ℕ, ◌≤◌, String, ◌≡◌, Bool, Option, List, [], ◌∷◌, ◌==◌, if◌then◌else◌, nat_eq, arith,
}
use owlpost.Prelude.Results.{Result, ok, err}
use owlpost.Config.{Config}
use owlpost.Contacts.{Contact}
use owlpost.Envelope.Replay.{SeenIds, load_seen}
use owlpost.Spool.Files.{Disk}

-- The operations on `f64` that the buckets use.
pub record F64 (N : Type 0) : Type 0 where
  pub of_u64 : ℕ → N
  pub add : N → N → N
  pub sub : N → N → N
  pub mul : N → N → N
  pub div : N → N → N
  pub max : N → N → N
  pub min : N → N → N
  pub at_least : N → N → Bool
  pub ceil : N → ℕ

pub record Bucket (N : Type 0) : Type 0 where
  pub tokens : N
  pub last : N

abbrev at_least_one : ℕ → ℕ
at_least_one n = if nat_eq n 0 then 1 else n

module _ {N : Type 0} ⦃f : F64 N⦄ where
  -- `Bucket::full`
  unfoldable pub full : ℕ → N → Bucket N
  full rate now = record { tokens = f.of_u64 rate; last = now }

  abbrev refilled : ℕ → N → Bucket N → N
  refilled rate now b =
      f.min
        (f.add b.tokens
          (f.mul (f.max (f.sub now b.last) (f.of_u64 0)) (f.div (f.of_u64 rate) (f.of_u64 3600))))
        (f.of_u64 rate)

  -- `Bucket::take`: the seconds to wait, or nothing and a token fewer.
  unfoldable pub take : ℕ → N → Bucket N → Result ℕ (Unit {0}) × Bucket N
  take rate now b =
      if nat_eq rate 0
      then (err 3600, b)
      else if f.at_least (refilled rate now b) (f.of_u64 1)
      then (ok tt, record { tokens = f.sub (refilled rate now b) (f.of_u64 1); last = now })
      else (
        err (
            at_least_one (
              f.ceil (
                f.div (f.sub (f.of_u64 1) (refilled rate now b))
                  (f.div (f.of_u64 rate) (f.of_u64 3600))))),
        record { tokens = refilled rate now b; last = now },
      )

-- `Spooled`, the event for the daemon's loop
pub record Spooled : Type 0 where
  pub id : String
  pub peer : String
  pub state : String
  pub auto : Bool

-- `AppState`. `contacts` is what `ContactBook::load` returns when a handler calls it, `seen_file` is
-- seen-ids.txt; `save_fails` is what a save that fails leaves in it, which is truncated before it is
-- written; `routed` are the ids handed to `route_new_record`, `events` are the events sent.
pub record AppState (B N : Type 0) : Type 0 where
  pub config : Config
  pub contacts : Option (List Contact)
  pub disk : Disk B
  pub seen : SeenIds
  pub seen_file : SeenIds
  pub save_fails : Option SeenIds
  pub buckets : List (String × Bucket N)
  pub routed : List String
  pub events : List Spooled

-- `HashMap::entry(k).or_insert_with(fresh)`, and the change through the reference it returns
unfoldable pub bucket_of : {N : Type 0} → String → Bucket N → List (String × Bucket N) → Bucket N
bucket_of k fresh [] = fresh
bucket_of k fresh ((j, b) ∷ m) = if j == k then b else bucket_of k fresh m

unfoldable pub set_bucket :
    {N : Type 0} → String → Bucket N → List (String × Bucket N) → List (String × Bucket N)
set_bucket k new [] = (k, new) ∷ []
set_bucket k new ((j, b) ∷ m) =
    let rest = set_bucket k new m in if j == k then (k, new) ∷ m else (j, b) ∷ rest

-- `AppState::new` at a restart: the replay window comes from its file, the buckets start anew.
unfoldable pub restart : {B N : Type 0} → ℕ → AppState B N → AppState B N
unfolding load_seen
restart now s = record s { seen = load_seen now s.seen_file; buckets = [] }

-- A caller without a token is told to wait for a second at least.
pub take-waits :
    {N : Type 0} ⦃f : F64 N⦄ (rate : ℕ) (now : N) (b : Bucket N) (secs : ℕ)
    → (take rate now b).0 ≡ err secs
    → 1 ≤ secs
unfolding take
take-waits rate now b secs h = ground arith
