-- ===== src/Tests/Owner.antt =====
-- src/cli/allow.rs and src/auto.rs: the owner allows one peer, and the scheduler answers another.
use owlpost.Spool.Names.{FilePath-discrete}
use owlpost.Prelude.{◌≡◌, ◌≢◌, refl, true, false, some, List, [], ◌∷◌, ◌⊎◌, eq_iff}
use owlpost.Prelude.Results.{ok}
use owlpost.Record.{Record, inbox, done}
use owlpost.Contacts.{Contact}
use owlpost.Spool.{get}
use owlpost.Spool.Files.{Disk}
use owlpost.Answer.{payload_of}
use owlpost.Answer.Home.{Home, appended}
use owlpost.Auto.{Runner, attempt, completed}
use owlpost.Auto.Candidates.{Candidate, attempt-Effect}
use owlpost.Cli.{release, deny_held}
use owlpost.Cli.Denial.{deny_held-Untouched}
use owlpost.Cli.Consent.{release-Untouched}
use owlpost.Tests.Data.{codec, external, config, contact, question, stored, disk_with}

abbrev held : Record
held = stored "question" "consent"

abbrev disk : Disk Record
disk = disk_with inbox "q1" held

clash : false ≡ true → ⊥
clash e = cc

bob-eve : question.from ≢ "eve"
bob-eve e = clash ((eq_iff "bob" "eve").1 e)

is_there : get ⦃c = codec⦄ inbox "q1" disk ≡ ok (some held)
unfolding get FilePath-discrete
is_there = refl

is_parsed : payload_of ⦃e = external⦄ "q1" held ≡ ok question
unfolding payload_of
is_parsed = refl

release-Untouched_example :
    get ⦃c = codec⦄ inbox "q1" (release ⦃e = external⦄ ⦃c = codec⦄ "now" "eve" "once" disk).1
    ≡ get ⦃c = codec⦄ inbox "q1" disk
release-Untouched_example =
    release-Untouched ⦃e = external⦄ ⦃c = codec⦄ "now" "eve" "once" inbox "q1" held question disk
      is_there is_parsed bob-eve

abbrev run : Runner
run _ = ok (record { text = "because"; harness = "claude"; redactions = 0; status = completed })

abbrev home : Home Record
home = record {
  disk = disk_with inbox "q1" (stored "question" "pending");
  log = record { lines = []; open_line = false; read_fails = false; fault = appended };
  released = [];
  has_key = true;
}

attempt-Effect_example :
    ((attempt ⦃e = external⦄ ⦃c = codec⦄ config run "a1" "now" "q1" (some (contact ∷ [])) home).1
      ≡ home)
    ⊎ ((book : List Contact) × (rec : Record) × (some (contact ∷ []) ≡ some book)
        × (get ⦃c = codec⦄ inbox "q1" home.disk ≡ ok (some rec))
        × Candidate ⦃e = external⦄ config book "q1" rec)
attempt-Effect_example =
    attempt-Effect ⦃e = external⦄ ⦃c = codec⦄ config run "a1" "now" "q1" (some (contact ∷ [])) home

inbox-done : inbox ≢ done
inbox-done e = cc

abbrev held_home : Home Record
held_home = record home { disk = disk }

deny_held-Untouched_example :
    get ⦃c = codec⦄ inbox "q1" (deny_held ⦃e = external⦄ ⦃c = codec⦄ "now" "eve" held_home).1.disk
    ≡ get ⦃c = codec⦄ inbox "q1" held_home.disk
deny_held-Untouched_example =
    deny_held-Untouched ⦃e = external⦄ ⦃c = codec⦄ "now" "eve" inbox inbox-done "q1" held question
      held_home is_there is_parsed bob-eve
