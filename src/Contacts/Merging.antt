-- ===== src/Contacts/Merging.antt =====
-- src/contacts/mod.rs: the overlay of the contacts of this machine over those of the repository.
use owlpost.Prelude.{String, ◌≡◌, false, Option, List, [], ◌∷◌, first, arith, eq_iff, ◌==◌}
use owlpost.Contacts.{Contact, merge, add_global, or_else, policy_of}

-- The first contact with the key.
abbrev pub with_key : String → List Contact → Option Contact
with_key key book = first (λ (c : Contact). c.pubkey == key) book

merge-policy : (c l : Contact) → (merge c l).policy ≡ or_else l.policy c.policy
unfolding merge
merge-policy c l = ground arith

merge-pubkey : (c l : Contact) → (merge c l).pubkey ≡ c.pubkey
unfolding merge
merge-pubkey c l = ground arith

-- A contact of this machine gives its policy, if it has one, to the contact with its key, which keeps
-- its own otherwise; a key that the book does not have yet is added with that policy.
pub add_global-policy :
    (book : List Contact) (l : Contact)
    → policy_of (with_key l.pubkey (add_global book l))
      ≡ or_else l.policy (policy_of (with_key l.pubkey book))
unfolding add_global
add_global-policy [] l = ground (arith, eq_iff l.pubkey l.pubkey)
add_global-policy (c ∷ book) l =
    ground (arith, add_global-policy book l, merge-policy c l, merge-pubkey c l)

-- The contacts with other keys stay as they are.
pub add_global-others :
    (book : List Contact) (l : Contact) (key : String)
    → (l.pubkey == key) ≡ false
    → with_key key (add_global book l) ≡ with_key key book
unfolding add_global
add_global-others [] l key h = ground arith
add_global-others (c ∷ book) l key h =
    ground (arith, add_global-others book l key h, merge-pubkey c l, eq_iff c.pubkey l.pubkey)
