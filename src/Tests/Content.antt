-- ===== src/Tests/Content.antt =====
-- src/content.rs: a file of a checkout, redacted, sent and checked.
use owlpost.Prelude.Chars.{utf8_width, byte_len}
use owlpost.Content.{
  content_from, git_blob, rev_parse, Sources, Request, Read, path_request, read_request, text_of,
  resolve, cut_at_char_boundary, to_draft,
}
use owlpost.Redact.{redact, Patterns}
use owlpost.Config.{get as get_in_config, Config}
use owlpost.Prelude.{ℕ, String, ◌≡◌, refl, false, none, some, [], ◌∷◌, ◌==◌, if◌then◌else◌, arith}
use owlpost.Prelude.Results.{ok}
use owlpost.Answer.Draft.{Content, stored_content}
use owlpost.Content.Resolved.{IsContentOf, resolve-IsContentOf, stored_content-to_draft}
use owlpost.Tests.Data.{external, config}

-- A checkout with one file at one commit.
abbrev pub sources : Sources
sources = record {
  rev_parse = λ checkout git_ref. ok (if git_ref == "HEAD" then some "c0ffee" else none);
  cat_file =
      λ checkout commit path. ok (if path == "README" then some (some "key hunter2") else none);
  canonicalize = λ p. some p;
  join = λ root key. key;
  starts_with = λ p root. p == root;
  read = λ p. none;
}

abbrev pub patterns : Patterns
patterns = record {
  compile = λ re. some (λ t. if t == "key hunter2" then ("key [redacted]", 1) else (t, 0));
}

abbrev redacting : Config
redacting = record config { responder = record config.responder { redact = "hunter2" ∷ [] } }

abbrev wanted : Request
wanted = path_request "web" "README" none

abbrev sent : Content
sent = record {
  text = "key [redacted]";
  sha256 = "hash";
  ref_resolved = some "c0ffee";
  truncated = false;
  full_bytes = 14;
  redactions = 1;
}

is_resolved : resolve ⦃w = sources⦄ ⦃e = external⦄ ⦃p = patterns⦄ redacting wanted ≡ ok sent
unfolding resolve read_request get_in_config rev_parse git_blob redact content_from byte_len
    utf8_width
is_resolved = refl

-- A cut inside the second character, of two bytes.
cuts : cut_at_char_boundary "ałb" 2 ≡ "a"
unfolding cut_at_char_boundary byte_len utf8_width
cuts = refl

resolve-IsContentOf_example :
    (found : Read) × (text full : String) × (n : ℕ) × (read_request ⦃w = sources⦄ redacting wanted
      ≡ ok found)
    × (text_of found.0 ≡ ok text)
    × (owlpost.Redact.redact ⦃p = patterns⦄ redacting.responder.redact text ≡ ok (full, n))
    × IsContentOf ⦃e = external⦄ full sent
resolve-IsContentOf_example =
    resolve-IsContentOf ⦃e = external⦄ ⦃w = sources⦄ ⦃p = patterns⦄ redacting wanted sent
      is_resolved

stored_content-to_draft_example : stored_content (some (to_draft "now" sent)) ≡ some sent
stored_content-to_draft_example = stored_content-to_draft "now" sent (omega arith)
