-- ===== src/Answer/Draft.antt =====
-- src/answer.rs: the draft that a record carries; src/content.rs and src/tools.rs: the draft of a file
-- and of the run of a tool.
use owlpost.Prelude.{ℕ, ◌^◌, String, Bool, false, Option, none, some, ltb, if◌then◌else◌, codes}
use owlpost.Prelude.Chars.{byte_len}
use owlpost.Prelude.Results.{Result, ok, ◌>>=◌, ok_or}
use owlpost.Json.{
  Value, null, str, num, negative, bool, obj, empty, insert, get, get_str, as_num, remove,
}
use owlpost.Record.{Record, meta_object, with_meta}
use owlpost.Envelope.{Exit}
use owlpost.Error.{Error, message}
use owlpost.Events.{push}

pub record StoredDraft : Type 0 where
  pub text : String
  pub harness : String
  pub redactions : ℕ
  pub status : String
  pub drafted_at : String

abbrev pub u32_max : ℕ
u32_max = 4294967295

-- `u32::try_from(n).unwrap_or(u32::MAX)`
abbrev pub saturated : ℕ → ℕ
saturated n = if ltb u32_max n then u32_max else n

-- `StoredDraft::to_value`
unfoldable pub to_value : StoredDraft → Value
unfolding insert
to_value d = obj (
    insert "text" (str d.text) (
      insert "harness" (str d.harness) (
        insert "redactions" (num d.redactions)
          (insert "status" (str d.status) (insert "drafted_at" (str d.drafted_at) empty)))))

abbrev pub number : String → Value → Option ℕ
number k v = elim (get k v) [ none ↦ none | some n ↦ as_num n ]

abbrev malformed : Error
malformed = message "draft is malformed"

abbrev draft_of : Value → Result Error (Option StoredDraft)
draft_of v = do
  redactions ← ok_or (number "redactions" v) malformed
  text ← ok_or (get_str "text" v) malformed
  harness ← ok_or (get_str "harness" v) malformed
  status ← ok_or (get_str "status" v) malformed
  drafted_at ← ok_or (get_str "drafted_at" v) malformed
  ok (
      some (record {
        text = text;
        harness = harness;
        redactions = saturated redactions;
        status = status;
        drafted_at = drafted_at;
      }))

-- `StoredDraft::from_record`
unfoldable pub draft_in : Option Value → Result Error (Option StoredDraft)
unfolding get get_str as_num
draft_in none = ok none
draft_in (some null) = ok none
draft_in (some v) = draft_of v

abbrev pub without_auto_error : Record → Record
without_auto_error rec = with_meta (remove "auto_error" (meta_object rec.meta)) rec

-- `store_text`, at the time `now`
unfoldable pub store_text : String → Record → String → (harness : String) → ℕ → Record
unfolding to_value push insert meta_object remove
store_text now rec text harness redactions =
    push now "drafted" (some harness)
      (some (obj (insert "redactions" (num redactions) (insert "status" (str "ok") empty))))
      (without_auto_error (record rec {
        draft = some (
            to_value (record {
              text = text;
              harness = harness;
              redactions = redactions;
              status = "ok";
              drafted_at = now;
            }));
        state = "drafted";
      }))

-- `draft_text`
unfoldable pub draft_text : String → Record → String → Record
unfolding store_text
draft_text now rec text = store_text now rec text "human" 0

-- `content::Content`
pub record Content : Type 0 where
  pub text : String
  pub sha256 : String
  pub ref_resolved : Option String
  pub truncated : Bool
  pub full_bytes : ℕ
  pub redactions : ℕ

-- `tools::Run`
pub record ToolRun : Type 0 where
  pub tool : String
  pub output : String
  pub exit_code : Exit
  pub duration_ms : ℕ
  pub truncated : Bool
  pub full_bytes : ℕ
  pub redactions : ℕ

abbrev or_zero : Option ℕ → ℕ
or_zero none = 0
or_zero (some n) = n

-- `u32::try_from(n).ok()`, then `unwrap_or(0)`
abbrev u32_or_zero : Option ℕ → ℕ
u32_or_zero none = 0
u32_or_zero (some n) = if ltb u32_max n then 0 else n

abbrev flag : Option Value → Bool
flag (some (bool b)) = b
flag _ = false

abbrev bytes_or : Option ℕ → String → ℕ
bytes_or none text = byte_len (codes text)
bytes_or (some n) text = n

abbrev empty_or : Option String → String
empty_or none = ""
empty_or (some s) = s

-- An `i64` that fits an `i32`.
abbrev exit_of : Option Value → Option Exit
exit_of (some (num n)) = if ltb n (2 ^ 31) then some (Exit.code n) else none
exit_of (some (negative n)) = if ltb n (2 ^ 31) then some (Exit.minus n) else none
exit_of _ = none

abbrev content_of : Value → Option String → Option String → Option Content
content_of v (some text) (some sha256) = some (record {
  text = text;
  sha256 = sha256;
  ref_resolved = get_str "ref_resolved" v;
  truncated = flag (get "truncated" v);
  full_bytes = bytes_or (number "full_bytes" v) text;
  redactions = u32_or_zero (number "redactions" v);
})
content_of v _ _ = none

-- `content::stored`
unfoldable pub stored_content : Option Value → Option Content
unfolding get get_str as_num byte_len
stored_content none = none
stored_content (some v) = content_of v (get_str "text" v) (get_str "sha256" v)

abbrev run_of : Value → Option String → Option Exit → Option ToolRun
run_of v (some output) (some exit_code) = some (record {
  tool = empty_or (get_str "tool" v);
  output = output;
  exit_code = exit_code;
  duration_ms = or_zero (number "duration_ms" v);
  truncated = flag (get "truncated" v);
  full_bytes = bytes_or (number "full_bytes" v) output;
  redactions = u32_or_zero (number "redactions" v);
})
run_of v _ _ = none

-- `tools::stored`
unfoldable pub stored_run : Option Value → Option ToolRun
unfolding get get_str as_num byte_len
stored_run none = none
stored_run (some v) = run_of v (get_str "text" v) (exit_of (get "exit_code" v))
