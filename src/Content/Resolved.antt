-- ===== src/Content/Resolved.antt =====
-- src/content.rs: what `resolve` gives, as the side that receives it checks it, and `to_draft`
-- as `stored` reads it back.
use owlpost.Prelude.{
  subst, ℕ, String, ◌≤◌, ◌≡◌, Bool, refl, sym, ◌∙◌, true, false, Option, none, some, ◌==◌, eq_iff,
  if◌then◌else◌, ltb, leb, codes, arith, Bool-cases, inl, inr,
}
use owlpost.Prelude.Chars.{byte_len}
use owlpost.Prelude.Results.{ok, ok-injective, >>=-eq-ok}
use owlpost.Json.{get, get_str, insert, lookup, as_num, as_str, str_of}
use owlpost.Config.{Config}
use owlpost.External.{External}
use owlpost.Answer.Draft.{Content, stored_content, u32_max}
use owlpost.Redact.{Patterns, redact}
use owlpost.Content.{
  Sources, Request, Read, max_content_bytes, read_request, text_of, content_from, resolve,
  cut_at_char_boundary, is_verified, to_draft,
}
use owlpost.Content.Cut.{IsLongest, cut-IsLongest, cut-fits}

-- The content of a redacted text `full`: the digest is that of the whole, the text is the longest
-- prefix within the limit, and `truncated` tells whether it is shorter.
pub record IsContentOf ⦃e : External⦄ (full : String) (c : Content) : Type 0 where
  pub cut : IsLongest full max_content_bytes c.text
  pub digest : c.sha256 ≡ e.sha256 (codes full)
  pub whole : c.truncated ≡ false → c.text ≡ full
  pub size : c.full_bytes ≡ byte_len (codes full)
  pub verified : is_verified c.text c.sha256 c.truncated ≡ true

not-both : false ≡ true → ⊥
not-both h = cc

not_longer : (n max : ℕ) → ltb max n ≡ false → leb n max ≡ true
not_longer n max h = ground arith

==-refl : (s : String) → (s == s) ≡ true
==-refl s = ground (arith, eq_iff s s)

module _ ⦃e : External⦄ where
  record-IsContentOf :
      (full : String) (c : Content)
      → c.text ≡ (
          if ltb max_content_bytes (byte_len (codes full))
          then cut_at_char_boundary full max_content_bytes
          else full)
      → c.sha256 ≡ e.sha256 (codes full)
      → c.truncated ≡ ltb max_content_bytes (byte_len (codes full))
      → c.full_bytes ≡ byte_len (codes full)
      → IsContentOf full c
  unfolding is_verified
  record-IsContentOf full c t d k n =
      elim (Bool-cases (ltb max_content_bytes (byte_len (codes full)))) [
        | inl long ↦ record {
          cut = rw (t, long) (cut-IsLongest full max_content_bytes);
          digest = d;
          whole = λ h. absurd (not-both (sym h ∙ (k ∙ long)));
          size = n;
          verified = rw (k ∙ long) refl;
        }
        | inr short ↦ record {
          cut =
              rw (t, short)
                (subst (IsLongest full max_content_bytes)
                  (cut-fits full max_content_bytes
                    (not_longer (byte_len (codes full)) max_content_bytes short))
                  (cut-IsLongest full max_content_bytes));
          digest = d;
          whole = λ h. t ∙ rw short refl;
          size = n;
          verified = rw (k ∙ short, d, t, short) (==-refl (e.sha256 (codes full)));
        }
      ]

  content_from-IsContentOf :
      (r : Option String) (full : String) (n : ℕ) → IsContentOf full (content_from r (full, n))
  unfolding content_from
  content_from-IsContentOf r full n =
      record-IsContentOf full (content_from r (full, n)) refl refl refl refl

  -- A content that `resolve` gives is that of the text that it read, redacted by the patterns of the
  -- settings: the longest prefix of whole characters of at most 262144 bytes, with the digest and the
  -- size of the whole, and the whole where it is not marked as truncated. The side that receives it
  -- does not report a mismatch: it compares the digest only where the content is not truncated.
  pub resolve-IsContentOf :
      ⦃w : Sources⦄ ⦃p : Patterns⦄ (config : Config) (request : Request) (c : Content)
      → resolve config request ≡ ok c
      → (found : Read) × (text full : String) × (n : ℕ) × (read_request config request ≡ ok found)
        × (text_of found.0 ≡ ok text)
        × (redact config.responder.redact text ≡ ok (full, n))
        × IsContentOf full c
  unfolding resolve
  resolve-IsContentOf ⦃w⦄ ⦃p⦄ config request c h =
      let (found, h1, k1) = >>=-eq-ok (read_request config request) _ h in
      let (text, h2, k2) = >>=-eq-ok (text_of found.0) _ k1 in
      let ((full, n), h3, k3) = >>=-eq-ok (redact config.responder.redact text) _ k2 in
      (
        found,
        text,
        full,
        n,
        h1,
        h2,
        h3,
        subst (IsContentOf full) (ok-injective k3) (content_from-IsContentOf found.1 full n),
      )

fits_u32 : (n : ℕ) → n ≤ u32_max → ltb u32_max n ≡ false
fits_u32 n h = ground arith

read_draft :
    (now text sha256 : String) (ref_resolved : Option String) (truncated : Bool)
    (full_bytes redactions : ℕ)
    → redactions ≤ u32_max
    → let c : Content = record {
      text = text;
      sha256 = sha256;
      ref_resolved = ref_resolved;
      truncated = truncated;
      full_bytes = full_bytes;
      redactions = redactions;
    } in
      stored_content (some (to_draft now c)) ≡ some c
unfolding stored_content to_draft insert lookup get get_str as_num str_of as_str
read_draft now text sha256 none t f n h = rw (fits_u32 n h) refl
read_draft now text sha256 (some r) t f n h = rw (fits_u32 n h) refl

-- A content with a 32-bit count of redactions comes back from the draft that `to_draft` writes.
pub stored_content-to_draft :
    (now : String) (c : Content)
    → c.redactions ≤ u32_max
    → stored_content (some (to_draft now c)) ≡ some c
stored_content-to_draft now c =
    read_draft now c.text c.sha256 c.ref_resolved c.truncated c.full_bytes c.redactions
