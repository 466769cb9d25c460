-- ===== src/Server/Post/Replay.antt =====
-- src/server.rs and `SeenIds` of src/envelope.rs: a request is accepted once, across restarts too.
use owlpost.Prelude.{
  ℕ, String, ◌≡◌, Bool, true, false, any, any-append, ◌==◌, ◌&&◌, [], ◌∷◌, nat_eq, arith, eq_iff,
  ◌≤◌, ◌+◌, Option-cases, inl, inr,
}
use owlpost.Prelude.Exec.{Preserves, >>=-Preserves}
use owlpost.Envelope.{Payload}
use owlpost.Server.State.{AppState}
use owlpost.Server.Post.Handler.{remember, admit}
use owlpost.Envelope.Replay.{SeenIds, is_seen, insert_seen, load_seen, seen_ids_ttl_secs}

-- The entry of `id`, made at the time `t`.
abbrev pub has_entry : String → ℕ → SeenIds → Bool
has_entry id t ids = any (λ (e : String × ℕ). e.0 == id && nat_eq e.1 t) ids

pub has_entry-is_seen :
    (id : String) (t : ℕ) (ids : SeenIds) → has_entry id t ids ≡ true → is_seen id ids ≡ true
unfolding is_seen
has_entry-is_seen id t [] h = h
has_entry-is_seen id t (e ∷ ids) h = ground (arith, has_entry-is_seen id t ids)

insert_seen-keeps :
    (id id' : String) (t now : ℕ) (ids : SeenIds)
    → has_entry id t ids ≡ true
    → has_entry id t (insert_seen id' now ids).0 ≡ true
unfolding insert_seen
insert_seen-keeps id id' t now ids h =
    ground (arith, any-append (λ (e : String × ℕ). e.0 == id && nat_eq e.1 t) ids ((id', now) ∷ []))

pub insert_seen-has :
    (id : String) (now : ℕ) (ids : SeenIds)
    → is_seen id ids ≡ false
    → has_entry id now (insert_seen id now ids).0 ≡ true
unfolding insert_seen
insert_seen-has id now ids h = ground (
  arith,
  any-append (λ (e : String × ℕ). e.0 == id && nat_eq e.1 now) ids ((id, now) ∷ []),
  eq_iff id id,
)

pub load_seen-keeps :
    (id : String) (t now : ℕ) (ids : SeenIds)
    → now ≤ t + seen_ids_ttl_secs
    → has_entry id t ids ≡ true
    → has_entry id t (load_seen now ids) ≡ true
unfolding load_seen
load_seen-keeps id t now [] young h = h
load_seen-keeps id t now (e ∷ ids) young h = ground (arith, load_seen-keeps id t now ids young)

-- The daemon holds the entry in memory.
pub record Keeps {B N : Type 0} (id : String) (t : ℕ) (s : AppState B N) : Type 0 where
  pub memory : has_entry id t s.seen ≡ true

module _ {B N : Type 0} (id : String) (t : ℕ) where
  pub remember-Keeps :
      (id' : String) (now : ℕ) → Preserves (Keeps {B = B} {N = N} id t) (remember id' now)
  unfolding remember
  remember-Keeps id' now s h = elim (Option-cases s.save_fails) [
    | inl works ↦ rw works (record { memory = insert_seen-keeps id id' t now s.seen h.memory })
    | inr (left, fails) ↦
        rw fails (record { memory = insert_seen-keeps id id' t now s.seen h.memory })
  ]

  pub admit-Keeps :
      (now : ℕ) (caller : String) (payload : Payload) (state : String × Bool)
      → Preserves (Keeps {B = B} {N = N} id t) (admit now caller payload state)
  unfolding admit
  admit-Keeps now caller payload state =
      >>=-Preserves (Keeps id t) (remember payload.id now) _ (remember-Keeps payload.id now)
        (λ _ s h. record { memory = h.memory })
