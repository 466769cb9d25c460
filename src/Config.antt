-- ===== src/Config.antt =====
-- src/config.rs: the settings that the modelled code reads. A map is an association list.
use owlpost.Prelude.{ℕ, String, Bool, Option, none, some, List, [], ◌∷◌, ◌==◌, if◌then◌else◌}

pub record Tool : Type 0 where
  pub argv : List String
  pub cwd : Option String
  pub timeout_ms : ℕ
  pub max_input_bytes : ℕ

-- `responder`, with `scope.private_memory` as a field of it
pub record Responder : Type 0 where
  pub enabled : Bool
  pub harness : String
  pub private_memory : Bool
  pub redact : List String
  pub timeout_secs : ℕ
  pub memory_root : Option String
  pub tools : List (String × Tool)

pub record Config : Type 0 where
  pub name : String
  pub rate_limit_per_peer_per_hour : ℕ
  pub responder : Responder
  pub projects : List (String × String)

-- `BTreeMap::get`
unfoldable pub get {ℓ} : {V : Type ℓ} → String → List (String × V) → Option V
get k [] = none
get k ((j, v) ∷ m) = if j == k then some v else get k m
