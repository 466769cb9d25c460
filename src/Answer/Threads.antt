-- ===== src/Answer/Threads.antt =====
-- src/answer.rs: the records of a thread.
use mathlib.Core.List.{filter_map}
use owlpost.Prelude.{
  String, Bool, true, false, not, ◌||◌, Option, none, some, List, [], ◌∷◌, ◌==◌, keep,
  if◌then◌else◌,
}
use owlpost.Prelude.Results.{Result, ok, err}
use owlpost.Record.{Record, Dir, inbox, done}
use owlpost.Error.{Error}
use owlpost.Envelope.{Payload}
use owlpost.External.{External}
use owlpost.Spool.{Entry, list_lenient}
use owlpost.Spool.Files.{Codec, Disk}
use owlpost.Answer.{payload_of, is_text}

-- `.unwrap_or_default()` on a listing
abbrev entries_of : Result Error (List Entry) → List Entry
entries_of (ok l) = l
entries_of (err e) = []

abbrev member : String → String → Record → Result Error Payload → Option (String × Record × Payload)
member context_id id rec (ok payload) =
    if is_text context_id payload.context_id then some (id, rec, payload) else none
member context_id id rec (err e) = none

abbrev is_none {ℓ} : {A : Type ℓ} → List A → Bool
is_none [] = true
is_none (x ∷ xs) = false

module _ {B : Type 0} ⦃e : External⦄ ⦃c : Codec B⦄ where
  -- `thread_records`
  pub thread_records :
      Dir → (context_id except : String) → Disk B → List (String × Record × Payload)
  unfolding list_lenient payload_of
  thread_records dir context_id except d =
      filter_map (λ (entry : Entry). member context_id entry.0 entry.1 (payload_of entry.0 entry.1))
        (keep (λ (entry : Entry). not (entry.0 == except)) (entries_of (list_lenient dir d)))

  -- `thread_has_earlier`
  unfoldable pub thread_has_earlier : (context_id except : String) → Disk B → Bool
  unfolding thread_records
  thread_has_earlier context_id except d = not (is_none (thread_records done context_id except d))

  -- `thread_known`
  unfoldable pub thread_known : (context_id except : String) → Disk B → Bool
  unfolding thread_records thread_has_earlier
  thread_known context_id except d =
      thread_has_earlier context_id except d
      || not (is_none (thread_records inbox context_id except d))
