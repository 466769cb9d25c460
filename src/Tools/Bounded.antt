-- ===== src/Tools/Bounded.antt =====
-- src/tools.rs: a tool's run ends by its timeout.
use owlpost.Prelude.{
  ℕ, zero, suc, ◌+◌, ◌*◌, ◌/◌, ◌≤◌, ◌≡◌, ◌⊎◌, refl, true, false, none, some, Option, Bool, leb,
  arith, Bool-cases, inl, inr,
}
use owlpost.Prelude.Results.{Result, ok, err}
use owlpost.Error.{Error}
use owlpost.Envelope.{Exit}
use owlpost.Tools.{Process, Outcome, wait_loop, wait_bounded, polled, killed, joined}

-- Each sleep between two polls takes its 50 milliseconds.
abbrev pub Sleeps : Process → Type 0
Sleeps p = (k : ℕ) → 50 * k ≤ p.now k

-- A child that was killed can be waited for.
abbrev pub IsReaped : Process → Type 0
IsReaped p = (r : Result Error (Option Exit)) × (p.wait_after_kill ≡ some r)

-- The readers come to the end of their pipes, or the child does not exit by itself.
abbrev pub IsDrained : Process → Type 0
IsDrained p = (p.readers_end ≡ true) ⊎ ((k : ℕ) → p.try_wait k ≡ ok none)

-- No reader is joined that does not end.
abbrev Joins : Process → Result Error (Option Exit × Bool) → Type 0
Joins p (err e) = Unit {0}
Joins p (ok (status, true)) = Unit {0}
Joins p (ok (status, false)) = p.readers_end ≡ true

-- A loop has a result.
abbrev Returns : Process → Option (Result Error (Option Exit × Bool)) → Type 0
Returns p m = (r : Result Error (Option Exit × Bool)) × (m ≡ some r) × Joins p r

deadline_over :
    (deadline now k : ℕ) → deadline ≤ 50 * k → 50 * k ≤ now → leb deadline now ≡ false → ⊥
deadline_over deadline now k h1 h2 e = ground arith

module _ (p : Process) (deadline : ℕ) (sleeps : Sleeps p) (reaped : IsReaped p)
    (drained : IsDrained p) where
  killed-Returns :
      (waited : Option (Result Error (Option Exit)))
      → p.wait_after_kill ≡ waited
      → Returns p (killed waited)
  killed-Returns none e = cc
  killed-Returns (some (err x)) e = (err x, refl, tt)
  killed-Returns (some (ok status)) e = (ok (status, true), refl, tt)

  exited-drained : (k : ℕ) (s : Option Exit) → p.try_wait k ≡ ok (some s) → p.readers_end ≡ true
  exited-drained k s exited = elim drained [ inl ends ↦ ends | inr runs ↦ absurd (cc (runs k)) ]

  polled-Returns :
      (k : ℕ) (rest : Option (Result Error (Option Exit × Bool)))
      (answer : Result Error (Option (Option Exit)))
      → p.try_wait k ≡ answer
      → (leb deadline (p.now k) ≡ false → Returns p rest)
      → Returns p (polled p deadline k rest answer)
  polled-Returns k rest (err x) e h = (err x, refl, tt)
  polled-Returns k rest (ok (some s)) e h = (ok (s, false), refl, exited-drained k s e)
  polled-Returns k rest (ok none) e h = elim (Bool-cases (leb deadline (p.now k))) [
    | inl over ↦ rw over (killed-Returns p.wait_after_kill refl)
    | inr not_yet ↦ rw not_yet (h not_yet)
  ]

  wait_loop-Returns :
      (fuel k : ℕ) → deadline ≤ 50 * (fuel + k) → Returns p (wait_loop p deadline (suc fuel) k)
  unfolding wait_loop
  wait_loop-Returns zero k enough =
      polled-Returns k none (p.try_wait k) refl
        (λ e. absurd (deadline_over deadline (p.now k) k (omega arith) (sleeps k) e))
  wait_loop-Returns (suc fuel) k enough =
      polled-Returns k (wait_loop p deadline (suc fuel) (suc k)) (p.try_wait k) refl
        (λ _. wait_loop-Returns fuel (suc k) (omega arith))

joined-returns :
    (p : Process) (r : Result Error (Option Exit × Bool))
    → Joins p r
    → (o : Result Error Outcome) × (joined p r ≡ some o)
joined-returns p (err x) h = (err x, refl)
joined-returns p (ok (status, true)) h = (_, refl)
joined-returns p (ok (status, false)) h = rw h (_, refl)

-- The run of a tool's child returns after at most `timeout / 50 + 2` polls, where each sleep between
-- two polls takes its 50 milliseconds and a child that was killed can be waited for, and where
-- the readers come to the end of their pipes or the child does not exit by itself.
pub wait_bounded-returns :
    (p : Process) (timeout : ℕ)
    → Sleeps p
    → IsReaped p
    → IsDrained p
    → (o : Result Error Outcome) × (wait_bounded p timeout ≡ some o)
unfolding wait_bounded
wait_bounded-returns p timeout sleeps reaped drained =
    let (r, returned, joins) =
      wait_loop-Returns p timeout sleeps reaped drained (suc (timeout / 50)) 0 (omega arith) in
    rw returned (joined-returns p r joins)
