-- ===== src/Question.antt =====
-- src/envelope.rs: the hash of a question, which keys the responder's cache, and the limit on its
-- context.
use owlpost.Prelude.{ℕ, String, Option, none, some, List, [], ◌∷◌, ◌++◌, ltb, if◌then◌else◌, codes}
use owlpost.Prelude.Chars.{is_whitespace, trim, byte_len}
use owlpost.Prelude.Results.{Result, ok, err}
use owlpost.Envelope.{max_context_bytes}
use owlpost.External.{External}

abbrev close_word : List ℕ → List (List ℕ) → List (List ℕ)
close_word [] ws = ws
close_word (c ∷ w) ws = (c ∷ w) ∷ ws

-- The loop of `split_whitespace`: the word under way, then the text.
words_from : List ℕ → List ℕ → List (List ℕ)
words_from word [] = close_word word []
words_from word (c ∷ cs) =
    let closed = close_word word (words_from [] cs) in
    let longer = words_from (word ++ c ∷ []) cs in if is_whitespace c then closed else longer

-- `split_whitespace`
unfoldable pub words : List ℕ → List (List ℕ)
unfolding words_from
words cs = words_from [] cs

-- `join(" ")`
unfoldable pub join_words : List (List ℕ) → List ℕ
join_words [] = []
join_words (w ∷ []) = w
join_words (w ∷ v ∷ ws) = w ++ b' ' ∷ join_words (v ∷ ws)

abbrev path_or_empty : Option String → List ℕ
path_or_empty none = []
path_or_empty (some p) = codes p

-- The text that `question_hash` digests: the project, the path and the normal form, in three lines.
unfoldable pub question_text : ⦃e : External⦄ → String → Option String → String → List ℕ
unfolding words join_words
question_text ⦃e⦄ project path question =
    codes project
    ++ b'\n' ∷ path_or_empty path
    ++ b'\n' ∷ e.lowercase (join_words (words (codes question)))

unfoldable pub question_hash : ⦃e : External⦄ → String → Option String → String → String
unfolding question_text
question_hash ⦃e⦄ project path question = e.sha256 (question_text project path question)

-- `check_context`: the trimmed text, or its length in bytes if that is over the limit
unfoldable pub check_context : String → Result ℕ (List ℕ)
unfolding trim byte_len
check_context context =
    let trimmed = trim (codes context) in
    if ltb max_context_bytes (byte_len trimmed) then err (byte_len trimmed) else ok trimmed
