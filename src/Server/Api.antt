-- ===== src/Server/Api.antt =====
-- src/server.rs: the answers of the API.
use owlpost.Prelude.{ℕ, String, Option, none, some}
use owlpost.Prelude.Results.{Result, ok, err}
use owlpost.Envelope.Task.{TaskState, rejected}

pub record ApiError : Type 0 where
  pub status : ℕ
  pub error : String
  pub retry_after : Option ℕ
  pub state : Option TaskState

abbrev pub api_error : ℕ → String → ApiError
api_error status error = record { status = status; error = error; retry_after = none; state = none }

abbrev pub bad_request : String → ApiError
bad_request error = api_error 400 error

abbrev pub unavailable : ApiError
unavailable = record {
  status = 403;
  error = "unavailable";
  retry_after = none;
  state = some rejected;
}

abbrev pub not_found : ApiError
not_found = api_error 404 "not found"

abbrev pub storage_error : ApiError
storage_error = api_error 500 "storage error"

-- `require_peer`
unfoldable pub require_peer : Option String → Result ApiError String
require_peer none = err (api_error 401 "client certificate required")
require_peer (some fingerprint) = ok fingerprint
