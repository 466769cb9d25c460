-- ===== src/Server/Validate/Sound.antt =====
-- What a payload that `validate_request` of src/server.rs accepts is known to be.
use owlpost.Prelude.{
  String, ◌≡◌, sym, ◌∙◌, true, Option, none, some, eq_of_some-eq, arith, codes, eq_iff,
}
use owlpost.Prelude.Results.{Result, ok, ok_or, ◌>>=◌, ◌>>◌, >>=-eq-ok, ok_or-eq-ok}
use owlpost.Json.{Value, Map, obj, lookup, lookup_str, as_object}
use owlpost.Envelope.{Kind, Body, Payload, is_request}
use owlpost.Config.{Config}
use owlpost.External.{External}
use owlpost.Server.Api.{ApiError, bad_request}
use owlpost.Server.Validate.{
  validate_request, object_of, valid_id, matches, check_header, typed_parse, validate_body,
}

-- serde_json reads the text fields of a payload from the members of their names.
pub record IsRead (object : Map) (payload : Payload) : Type 0 where
  pub id : lookup_str "id" object ≡ some payload.id
  pub from : lookup_str "from" object ≡ some payload.from
  pub to : lookup_str "to" object ≡ some payload.to
  pub ts : lookup_str "ts" object ≡ some payload.ts

abbrev text_of : Option String → String
text_of none = ""
text_of (some s) = s

check_header_sound :
    (object : Map) (caller me : String) (id : String) (kind : String)
    → lookup_str "id" object ≡ some id
    → check_header object caller me ≡ ok kind
    → (lookup_str "from" object ≡ some caller)
      × (lookup_str "to" object ≡ some me)
      × (valid_id (codes id) ≡ true)
unfolding check_header
check_header_sound object caller me id kind e h = ground (
  arith,
  eq_iff (text_of (lookup_str "from" object)) caller,
  eq_iff (text_of (lookup_str "to" object)) me,
)

typed_parse_sound :
    ⦃e : External⦄ (value : Value) (payload : Payload)
    → typed_parse value ≡ ok payload
    → matches payload.kind payload.body ≡ true
unfolding typed_parse
typed_parse_sound ⦃e⦄ value payload h = ground arith

typed_parse-value_payload :
    ⦃e : External⦄ (value : Value) (payload : Payload)
    → typed_parse value ≡ ok payload
    → e.value_payload value ≡ some payload
unfolding typed_parse
typed_parse-value_payload ⦃e⦄ value payload h = ground arith

is_request_of_matches :
    (kind : Kind) (body : Body) → matches kind body ≡ true → is_request kind ≡ true
unfolding is_request
is_request_of_matches kind body h = ground arith

module _ ⦃e : External⦄ (object : Map) (caller me : String) (config : Config)
    (payload : Payload) where
  abbrev after_body : String → Map → Result ApiError Payload
  after_body kind body = validate_body kind body config >> typed_parse (obj object)

  abbrev after_header : String → Result ApiError Payload
  after_header kind =
      ok_or (object_of (lookup "body" object)) (bad_request "body must be an object")
      >>= after_body kind

  -- An accepted payload comes from the caller and goes to this daemon, has an id that is safe as a
  -- file name, and is a request whose body is that of its kind. That serde_json reads the fields of
  -- the payload from the members of their names is a hypothesis.
  pub validate_request_sound :
      IsRead object payload
      → validate_request (obj object) caller me config ≡ ok payload
      → (payload.from ≡ caller)
        × (payload.to ≡ me)
        × (valid_id (codes payload.id) ≡ true)
        × (is_request payload.kind ≡ true)
        × (matches payload.kind payload.body ≡ true)
  unfolding validate_request as_object
  validate_request_sound read accepted =
      let (kind, header, accepted') =
        >>=-eq-ok (check_header object caller me) after_header accepted in
      let (body, _, accepted'') =
        ok_or-eq-ok (object_of (lookup "body" object)) (bad_request "body must be an object")
          (after_body kind) accepted' in
      let (_, _, parsed) =
        >>=-eq-ok (validate_body kind body config) (λ _. typed_parse (obj object)) accepted'' in
      let (from, to, id) = check_header_sound object caller me payload.id kind read.id header in
      let agrees = typed_parse_sound (obj object) payload parsed in
      (
        eq_of_some-eq (sym read.from ∙ from),
        eq_of_some-eq (sym read.to ∙ to),
        id,
        is_request_of_matches payload.kind payload.body agrees,
        agrees,
      )

-- The payload of an accepted request is the one that serde_json reads from its value.
pub validate_request-value_payload :
    ⦃e : External⦄ (value : Value) (caller me : String) (config : Config) (payload : Payload)
    → validate_request value caller me config ≡ ok payload
    → e.value_payload value ≡ some payload
unfolding validate_request typed_parse
validate_request-value_payload ⦃e⦄ value caller me config payload accepted =
    let (object, _, accepted') =
      >>=-eq-ok (ok_or (as_object value) (bad_request "payload must be a JSON object")) _
        accepted in
    let (kind, _, accepted'') = >>=-eq-ok (check_header object caller me) _ accepted' in
    let (body, _, checked) =
      >>=-eq-ok (ok_or (object_of (lookup "body" object)) (bad_request "body must be an object")) _
        accepted'' in
    let (_, _, parsed) =
      >>=-eq-ok (validate_body kind body config) (λ _. typed_parse value) checked in
    typed_parse-value_payload value payload parsed
