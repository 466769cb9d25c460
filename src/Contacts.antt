-- ===== src/Contacts.antt =====
-- src/contacts/mod.rs: the two scopes of contacts, merged, with the policy overlay.
pub mod Merging
use owlpost.Prelude.{
  ℕ, String, ◌≡◌, Bool, true, false, ◌&&◌, not, Option, none, some, List, [], ◌∷◌, ◌++◌,
  if◌then◌else◌, ◌==◌, first, keep, any, is_some,
}
use owlpost.Prelude.Results.{Result, ok, err}

-- `Mode`
pub data Mode : Type 0 where
  manual auto never : Mode

unfoldable pub mode_str : Mode → String
mode_str manual = "manual"
mode_str auto = "auto"
mode_str never = "never"

pub record Policy : Type 0 where
  pub mode : Mode
  pub projects : List String
  pub rate_limit_per_hour : Option ℕ

pub record Contact : Type 0 where
  pub name : String
  pub emails : List String
  pub pubkey : String
  pub endpoints : List String
  pub source : String
  pub policy : Option Policy
  pub added_at : Option String
  pub fingerprint : String

abbrev pub or_else {ℓ} : {A : Type ℓ} → Option A → Option A → Option A
or_else none b = b
or_else (some a) b = some a

-- `merge`: a policy wins over none, and a named file fills a nameless one.
unfoldable pub merge : Contact → Contact → Contact
merge into other =
    let policy' = or_else other.policy into.policy in
    if into.name == "" && not (other.name == "")
    then record into {
      policy = policy';
      name = other.name;
      emails = other.emails;
      endpoints = other.endpoints;
      added_at = other.added_at;
    }
    else record into { policy = policy' }

-- One round of the loop of `load`: the first contact with the key is merged with, else the file is
-- added at the end.
unfoldable pub add_global : List Contact → Contact → List Contact
add_global [] l = l ∷ []
add_global (c ∷ cs) l =
    let rest = add_global cs l in if c.pubkey == l.pubkey then merge c l ∷ cs else c ∷ rest

-- `ContactBook::load`, on the contacts of the repository and those of this machine, each as
-- `load_dir` parsed them.
unfoldable pub load : List Contact → List Contact → List Contact
unfolding add_global merge
load contacts [] = contacts
load contacts (l ∷ ls) = load (add_global contacts l) ls

-- `ContactBook::load_scope`
unfoldable pub load_scope : List Contact → List Contact → String → List Contact
unfolding load
load_scope repo local scope = keep (λ c. c.source == scope) (load repo local)

unfoldable pub find_contact : String → List Contact → Option Contact
find_contact fingerprint book = first (λ c. c.fingerprint == fingerprint) book

abbrev pub policy_of : Option Contact → Option Policy
policy_of none = none
policy_of (some c) = c.policy

-- `policy_for`
unfoldable pub policy_for : String → List Contact → Option Policy
unfolding find_contact
policy_for fingerprint book = policy_of (find_contact fingerprint book)

abbrev pub mode_of : Option Policy → Option Mode
mode_of none = none
mode_of (some p) = some p.mode
