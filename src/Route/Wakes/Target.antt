-- ===== src/Route/Wakes/Target.antt =====
-- `route` of src/route.rs: which session a record goes to.
use owlpost.Prelude.{◌≤◌, String, ◌≡◌, true, false, not, ◌&&◌, Option, List, keep, arith}
use owlpost.Prelude.Order.{head, head-sort_with, Best}
use owlpost.Route.{Marker, Routing, Routes, Outside, live_markers}
use owlpost.Route.Wakes.{Rank, rank_of, rank_le, is_untried, candidates}

-- A session that is as near to the record's project, and was heard of as recently.
abbrev pub NoWorse : Rank → Rank → Type 0
NoWorse a b =
    ((a.elsewhere && not b.elsewhere) ≡ false) × ((a.elsewhere ≡ b.elsewhere) → b.beat ≤ a.beat)

NoWorse-refl : (a : Rank) → NoWorse a a
NoWorse-refl a = (ground arith, λ _. omega arith)

NoWorse-trans : (a b c : Rank) → NoWorse a b → NoWorse b c → NoWorse a c
NoWorse-trans a b c h k = (ground arith, λ e. ground (arith, h.1, k.1))

rank_le-yes : (a b : Rank) → rank_le a b ≡ true → NoWorse a b
unfolding rank_le
rank_le-yes a b h = (ground arith, λ e. ground arith)

rank_le-no : (a b : Rank) → rank_le a b ≡ false → NoWorse b a
unfolding rank_le
rank_le-no a b h = (ground arith, λ e. ground arith)

module _ (o : Outside) (checkout : Option String) where
  -- What the sorting of the candidates is good for.
  abbrev pub IsBest : List Marker → Option Marker → Type 0
  IsBest = Best (λ (a b : Marker). NoWorse (rank_of o checkout a) (rank_of o checkout b))

  pub candidates-IsBest :
      (routing : Routing) (s : Routes)
      → IsBest
          (keep (is_untried routing) (live_markers o s))
          (head (candidates o checkout routing s))
  unfolding candidates
  candidates-IsBest routing s =
      head-sort_with _ _ (λ a. NoWorse-refl (rank_of o checkout a))
        (λ a b c.
          NoWorse-trans (rank_of o checkout a) (rank_of o checkout b) (rank_of o checkout c))
        (λ a b. rank_le-yes (rank_of o checkout a) (rank_of o checkout b))
        (λ a b. rank_le-no (rank_of o checkout a) (rank_of o checkout b))
        (keep (is_untried routing) (live_markers o s))
