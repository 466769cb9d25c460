-- ===== src/External.antt =====
-- What the modelled code calls and does not implement: serde_json on a payload, the ed25519 and
-- SHA-256 of its crates, and the text of an error.
use owlpost.Prelude.{ℕ, String, Bool, Option, List}
use owlpost.Json.{Value, Map}
use owlpost.Envelope.{Payload}
use owlpost.Error.{Error}
use owlpost.Record.{Dir}

pub record External : Type 0 where
  -- `serde_json::from_slice` to a value; from a value, or from a text, to a payload
  pub parse_value : String → Option Value
  pub value_payload : Value → Option Payload
  pub parse_payload : String → Option Payload
  -- `serde_json::to_string` of a payload; the length in bytes of that of a map
  pub payload_text : Payload → String
  pub map_bytes : Map → ℕ
  -- `identity::{parse_pubkey, parse_sig, verify}`; own key: `fingerprint` and `sign`
  pub parse_pubkey : String → Option String
  pub parse_sig : String → Option String
  pub verify : String → String → String → Bool
  pub own_fingerprint : String
  pub sign : String → String
  -- `Sha256::digest` of a text, in hexadecimal
  pub sha256 : List ℕ → String
  -- `str::to_lowercase`, which goes by the tables of Unicode
  pub lowercase : List ℕ → List ℕ
  -- The file system: the record that `<dir>/<id>.json` is, where `id` may be a path of its own; `none`
  -- if that is outside the spool, and then how a write of it ends.
  pub join : Dir → String → Option (Dir × String)
  pub stray_write : Dir → String → Bool
  -- `format!("{e:#}")`
  pub render : Error → String
