-- ===== src/Content.antt =====
-- src/content.rs: the file or the memory entry that a content request asks for.
pub mod Cut
pub mod Resolved
use Prim.Native.Char.{Char, code}
use Prim.Native.String.{◌++◌ as append}
use owlpost.Prelude.{
  ℕ, zero, suc, ◌-◌, String, Bool, true, false, not, ◌||◌, Option, none, some, List, [], ◌∷◌, ◌==◌,
  if◌then◌else◌, ltb, leb, codes, any, nat_eq,
}
use owlpost.Prelude.Chars.{utf8_width, byte_len, is_empty, begins_with}
use owlpost.Prelude.Results
use owlpost.Prelude.Results.{Result, ok, err, ok_or, refuse_if}
use owlpost.Json.{Value, str, num, bool, obj, empty, insert}
use owlpost.Error.{Error, message}
use owlpost.Config.{Config}
use owlpost.Config
use owlpost.Envelope.{Payload, Kind, Body}
use owlpost.External.{External}
use owlpost.Answer.Draft.{Content, saturated}
use owlpost.Redact.{Patterns, redact}

-- `MAX_CONTENT_BYTES`
abbrev pub max_content_bytes : ℕ
max_content_bytes = 262144

-- `str::is_char_boundary`
unfoldable pub is_char_boundary : String → ℕ → Bool
is_char_boundary s zero = true
is_char_boundary String.[] (suc n) = false
is_char_boundary (String.◌∷◌ c s) (suc n) =
    let rest = is_char_boundary s (suc n - utf8_width (code c)) in
    if ltb (suc n) (utf8_width (code c)) then false else rest

-- `&text[..end]`, at a boundary
unfoldable pub slice_to : String → ℕ → String
slice_to String.[] n = String.[]
slice_to (String.◌∷◌ c s) n =
    let rest = slice_to s (n - utf8_width (code c)) in
    if ltb n (utf8_width (code c)) then String.[] else String.◌∷◌ c rest

-- The loop that goes back to a boundary
unfoldable pub back_to_boundary : String → ℕ → ℕ
back_to_boundary s zero = 0
back_to_boundary s (suc n) =
    let rest = back_to_boundary s n in if is_char_boundary s (suc n) then suc n else rest

-- `cut_at_char_boundary`
unfoldable pub cut_at_char_boundary : String → ℕ → String
unfolding back_to_boundary slice_to is_char_boundary
cut_at_char_boundary text max =
    if leb (byte_len (codes text)) max then text else slice_to text (back_to_boundary text max)

-- `Request`
pub data Request : Type 0 where
  path_request : (project path : String) → Option String → Request
  memory_request : String → Request

abbrev or_empty : Option String → String
or_empty none = ""
or_empty (some s) = s

abbrev request_in : Option String → Option String → Option String → Option String → Option Request
request_in project git_ref (some path) none = some (path_request (or_empty project) path git_ref)
request_in project git_ref none (some key) = some (memory_request key)
request_in project git_ref _ _ = none

abbrev request_by : Kind → Body → Option Request
request_by Kind.content (Body.content project git_ref path memory) =
    request_in project git_ref path memory
request_by _ _ = none

-- `request_of`
unfoldable pub request_of : Payload → Result Error Request
request_of payload = ok_or (request_by payload.kind payload.body) (message "not a content request")

-- git and the file system: the commit of `<ref>^{commit}`, the blob at `<commit>:<path>`,
-- `canonicalize`, and the bytes of a file, each as text if they are UTF-8.
pub record Sources : Type 0 where
  pub rev_parse : (checkout git_ref : String) → Result Error (Option String)
  pub cat_file : (checkout commit path : String) → Result Error (Option (Option String))
  pub canonicalize : String → Option String
  pub join : String → String → String
  pub starts_with : String → String → Bool
  pub read : String → Option (Option String)

abbrev is_flag : List ℕ → Bool
is_flag cs = is_empty cs || begins_with b'-' cs

abbrev head_or : Option String → String
head_or none = "HEAD"
head_or (some r) = r

-- What `resolve` reads: the bytes as text if they are UTF-8, and the commit.
abbrev pub Read : Type 0
Read = Option String × Option String

abbrev pub has_nul : String → Bool
has_nul s = any (λ c. nat_eq c 0) (codes s)

abbrev pub text_of : Option String → Result Error String
text_of none = err (message "not text")
text_of (some t) = if has_nul t then err (message "not text") else ok t

-- The content of a redacted text: cut if it is too long, with the digest of the whole.
unfoldable pub content_from : ⦃e : External⦄ → Option String → String × ℕ → Content
content_from ⦃e⦄ ref_resolved (redacted, redactions) =
    let full = byte_len (codes redacted) in
    record {
      text =
          if ltb max_content_bytes full
          then cut_at_char_boundary redacted max_content_bytes
          else redacted;
      sha256 = e.sha256 (codes redacted);
      ref_resolved = ref_resolved;
      truncated = ltb max_content_bytes full;
      full_bytes = full;
      redactions = saturated redactions;
    }

module _ ⦃w : Sources⦄ where
  -- `rev_parse`
  unfoldable pub rev_parse : String → String → Result Error String
  rev_parse checkout git_ref =
      Results.◌>>◌ (refuse_if (is_flag (codes git_ref)) (message "malformed ref")) (
        Results.◌>>=◌ (w.rev_parse checkout git_ref)
          λ (commit : Option String). ok_or commit (message "unknown ref"))

  -- `git_blob`
  unfoldable pub git_blob : String → String → String → Result Error (Option String)
  git_blob checkout commit path =
      Results.◌>>=◌ (w.cat_file checkout commit path)
        λ (blob : Option (Option String)). ok_or blob (message "unknown path")

  -- `read_memory`
  unfoldable pub read_memory : Config → String → Result Error (Option String)
  read_memory config key =
      Results.◌>>=◌ (ok_or config.responder.memory_root (message "memory store not configured"))
        λ (given : String).
          Results.◌>>=◌ (ok_or (w.canonicalize given) (message "memory store not configured"))
            λ (root : String).
              Results.◌>>=◌
                (ok_or (w.canonicalize (w.join root key)) (message "unknown memory entry"))
                λ (resolved : String).
                  Results.◌>>◌
                    (refuse_if (not (w.starts_with resolved root))
                      (message "outside the memory store"))
                    (ok_or (w.read resolved) (message "reading"))

  -- The object that a request names
  unfoldable pub read_request : Config → Request → Result Error Read
  read_request config (path_request project path git_ref) =
      Results.◌>>=◌ (ok_or (Config.get project config.projects) (message "no configured checkout"))
        λ (checkout : String).
          Results.◌>>=◌ (rev_parse checkout (head_or git_ref)) λ (commit : String).
            Results.◌>>=◌ (git_blob checkout commit path)
              λ (text : Option String). ok (text, some commit)
  read_request config (memory_request key) =
      Results.◌>>=◌ (read_memory config key) λ (text : Option String). ok (text, none)

  -- `resolve`
  unfoldable pub resolve : ⦃e : External⦄ ⦃p : Patterns⦄ → Config → Request → Result Error Content
  resolve config request = Results.◌>>=◌ (read_request config request) λ (found : Read).
      Results.◌>>=◌ (text_of found.0) λ (text : String).
        Results.◌>>=◌ (redact config.responder.redact text)
          λ (redacted : String × ℕ). ok (content_from found.1 redacted)

abbrev with_ref : Option String → Value → Value
with_ref none (obj m) = obj m
with_ref (some r) (obj m) = obj (insert "ref_resolved" (str r) m)
with_ref _ v = v

-- `Content::to_draft`
unfoldable pub to_draft : (now : String) → Content → Value
unfolding insert
to_draft now c = with_ref c.ref_resolved (
    obj (
      insert "text" (str c.text) (
        insert "harness" (str "human") (
          insert "redactions" (num c.redactions) (
            insert "status" (str "ok") (
              insert "drafted_at" (str now) (
                insert "sha256" (str c.sha256) (
                  insert "truncated" (bool c.truncated)
                    (insert "full_bytes" (num c.full_bytes) empty)))))))))

-- `verify_line`, whether it reports no mismatch
unfoldable pub is_verified : ⦃e : External⦄ → (content sha256 : String) → Bool → Bool
is_verified ⦃e⦄ content sha256 truncated =
    if truncated then true else e.sha256 (codes content) == sha256
