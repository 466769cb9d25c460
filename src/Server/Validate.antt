-- ===== src/Server/Validate.antt =====
-- src/server.rs: `validate_request`, the checks on the payload of a request. The messages leave out
-- the numbers and the parse errors that the code writes into them.
pub mod Paths
pub mod Sound
use owlpost.Prelude.{
  ℕ, ◌≤◌, String, ◌≡◌, refl, Bool, true, false, not, ◌&&◌, ◌||◌, Option, none, some, List, [], ◌∷◌,
  leb, ltb, nat_eq, if◌then◌else◌, ◌==◌, codes, all, any, map, is_some,
}
use owlpost.Prelude.Chars.{trim, byte_len, split, is_empty, begins_with, is_alphanumeric}
use owlpost.Prelude.Results.{Result, ok, err, ◌>>=◌, ◌>>◌, refuse_if, ok_or}
use owlpost.Json.{Value, Map, null, str, num, obj, as_str, as_object, lookup, str_of, lookup_str}
use owlpost.Envelope.{Kind, Body, Payload}
use owlpost.Question.{check_context}
use owlpost.Config.{Config, Tool, get}
use owlpost.External.{External}
use owlpost.Server.Api.{ApiError, bad_request}

abbrev separator : ℕ → ℕ
separator c = if nat_eq c b'\\' then b'/' else c

abbrev is_dot_dot : List ℕ → Bool
is_dot_dot (a ∷ b ∷ []) = nat_eq a b'.' && nat_eq b b'.'
is_dot_dot _ = false

-- The segments of a path; a backslash separates them too.
pub segments : List ℕ → List (List ℕ)
unfolding split
segments p = split b'/' (map separator p)

-- `escapes_root`: absolute, empty, or with a `..` segment
unfoldable pub escapes_root : List ℕ → Bool
unfolding segments
escapes_root p =
    is_empty (map separator p) || begins_with b'/' (map separator p) || any is_dot_dot (segments p)

-- `valid_id`, the same test as the one on `id` in `validate_request`
unfoldable pub valid_id : List ℕ → Bool
valid_id id = not (is_empty id) && all (λ c. is_alphanumeric c || nat_eq c b'-') id

abbrev is_ref_char : ℕ → Bool
is_ref_char c =
    is_alphanumeric c || nat_eq c b'.' || nat_eq c b'_' || nat_eq c b'/' || nat_eq c b'-'

-- The test on `ref` in `validate_content_body`
unfoldable pub malformed_ref : List ℕ → Bool
unfolding byte_len
malformed_ref r =
    is_empty r || begins_with b'-' r || ltb 200 (byte_len r) || not (all is_ref_char r)

abbrev check_ref : Option String → Result ApiError (Unit {0})
check_ref none = ok tt
check_ref (some r) = refuse_if (malformed_ref (codes r)) (bad_request "malformed ref")

abbrev check_path : Config → Option String → String → Result ApiError (Unit {0})
check_path config project path = do
  project ← ok_or project (bad_request "missing body.project")
  refuse_if (not (is_some (get project config.projects))) (bad_request "unknown project")
  refuse_if (escapes_root (codes path)) (bad_request "path escapes the project")

abbrev check_memory : Config → String → Result ApiError (Unit {0})
check_memory config key = do
  refuse_if (escapes_root (codes key)) (bad_request "memory key escapes the memory store")
  refuse_if (not (is_some config.responder.memory_root) || not config.responder.private_memory)
      (bad_request "memory store not configured")

-- Exactly one of `path` and `memory`.
abbrev check_target : Config → (path memory project : Option String) → Result ApiError (Unit {0})
check_target config (some path) none project = check_path config project path
check_target config none (some key) project = check_memory config key
check_target config _ _ project = err (bad_request "body must carry exactly one of path and memory")

unfoldable pub validate_content_body : Map → Config → Result ApiError (Unit {0})
validate_content_body body config = do
  check_target config (lookup_str "path" body) (lookup_str "memory" body)
      (lookup_str "project" body)
  check_ref (lookup_str "ref" body)

abbrev object_of : Option Value → Option Map
object_of none = none
object_of (some v) = as_object v

abbrev tool_of : Config → Option String → Option Tool
tool_of config none = none
tool_of config (some t) = if t == "" then none else get t config.responder.tools

-- An absent project is accepted, any other value must name a configured one.
abbrev check_project : Config → Option Value → Result ApiError (Unit {0})
check_project config none = ok tt
check_project config (some (str p)) =
    refuse_if (not (is_some (get p config.projects))) (bad_request "unknown project")
check_project config (some _) = err (bad_request "unknown project")

unfoldable pub validate_tool_body : ⦃e : External⦄ → Map → Config → Result ApiError (Unit {0})
unfolding lookup lookup_str as_object get
validate_tool_body ⦃e⦄ body config = do
  tool ← ok_or (tool_of config (lookup_str "tool" body)) (bad_request "unknown tool")
  input ← ok_or (object_of (lookup "input" body)) (bad_request "body.input must be an object")
  refuse_if (ltb tool.max_input_bytes (e.map_bytes input)) (bad_request "input is too long")
  check_project config (lookup "project" body)

-- `str_field`
abbrev str_field : Map → String → String → Result ApiError String
str_field m key error = ok_or (lookup_str key m) (bad_request error)

abbrev is_one : Option Value → Bool
is_one (some (num n)) = nat_eq n 1
is_one _ = false

abbrev check_text : Result ℕ (List ℕ) → Result ApiError (Unit {0})
check_text (ok t) = ok tt
check_text (err n) = err (bad_request "context too long")

abbrev check_context_value : Option Value → Result ApiError (Unit {0})
check_context_value none = ok tt
check_context_value (some null) = ok tt
check_context_value (some (str c)) = check_text (check_context c)
check_context_value (some _) = err (bad_request "bad schema: body.context is not a string")

-- The checks on the body of a question
unfoldable pub validate_question_body : Map → Result ApiError (Unit {0})
unfolding lookup lookup_str trim check_context
validate_question_body body = do
  _ ← str_field body "project" "missing body.project"
  question ← str_field body "question" "missing body.question"
  refuse_if (is_empty (trim (codes question))) (bad_request "body.question is empty")
  check_context_value (lookup "context" body)

-- The tag and the body must agree.
abbrev pub matches : Kind → Body → Bool
matches Kind.question (Body.question _ _ _ _) = true
matches Kind.content (Body.content _ _ _ _) = true
matches Kind.tool_call (Body.tool_call _ _ _) = true
matches _ _ = false

abbrev validate_body : ⦃e : External⦄ → String → Map → Config → Result ApiError (Unit {0})
validate_body kind body config =
    if kind == "content"
    then validate_content_body body config
    else if kind == "tool-call"
    then validate_tool_body body config
    else validate_question_body body

-- The first part of `validate_request`: the members beside the body. It returns the type.
unfoldable pub check_header : Map → (caller me : String) → Result ApiError String
check_header object caller me = do
  refuse_if (not (is_one (lookup "v" object))) (bad_request "unsupported v")
  id ← str_field object "id" "missing id"
  refuse_if (not (valid_id (codes id))) (bad_request "malformed id")
  kind ← str_field object "type" "missing type"
  refuse_if (not (kind == "question") && not (kind == "content") && not (kind == "tool-call"))
      (bad_request "type must be question, content or tool-call")
  from ← str_field object "from" "missing from"
  refuse_if (not (from == caller)) (bad_request "from does not match the client certificate")
  to ← str_field object "to" "missing to"
  refuse_if (not (to == me)) (bad_request "to is not this daemon")
  _ ← str_field object "ts" "missing ts"
  ok kind

-- The last part: the typed parse.
unfoldable pub typed_parse : ⦃e : External⦄ → Value → Result ApiError Payload
typed_parse ⦃e⦄ value = do
  payload ← ok_or (e.value_payload value) (bad_request "bad schema")
  refuse_if (not (matches payload.kind payload.body)) (bad_request "body does not match type")
  ok payload

unfoldable pub validate_request :
    ⦃e : External⦄ → Value → (caller me : String) → Config → Result ApiError Payload
validate_request ⦃e⦄ value caller me config = do
  object ← ok_or (as_object value) (bad_request "payload must be a JSON object")
  kind ← check_header object caller me
  body ← ok_or (object_of (lookup "body" object)) (bad_request "body must be an object")
  validate_body kind body config
  typed_parse value
