-- ===== src/Controller/RunLoop/Pace.antt =====
-- That CAT rounds are neither too close together nor too far apart.
use factom_p2p.Prelude.{
  ℕ, suc, true, false, ltb→lt, ==_iff, ◌+◌, ◌≤◌, ◌<◌, ◌≡◌, ◌⊎◌, refl, Bool, List, [], ◌∷◌, length,
  ◌==◌, arith, ltb, Bool-cases, inl, inr, if◌then◌else◌,
}
use factom_p2p.Controller.Selection.{Shuffle}
use factom_p2p.Controller.Round.{Rounds, run_cat_round}
use factom_p2p.Controller.RunLoop.{Tick, iterate, run}

module _ {A : Type 0} (sh : Shuffle A) (is_special : A → Bool)
    (round_time drop_to ping_interval : ℕ) where
  -- The times of the iterations in which the count of rounds changes.
  unfoldable pub round_times : List (Tick A) → Rounds → List ℕ
  round_times [] c = []
  round_times (t ∷ ticks) c =
      let c' = (iterate sh is_special round_time drop_to ping_interval t c).0 in
      let rest = round_times ticks c' in if c'.rounds == c.rounds then rest else t.now ∷ rest

  -- No iteration is before the one before it, or more than `gap` after it.
  abbrev pub Steady : ℕ → ℕ → List (Tick A) → Type 0
  Steady gap before [] = Unit {0}
  Steady gap before (t ∷ ticks) = (before ≤ t.now) × (t.now ≤ before + gap) × Steady gap t.now ticks

  -- Each time is `round_time` or more after the one before it, but not `gap` more.
  abbrev pub Paced : ℕ → ℕ → List ℕ → Type 0
  Paced gap last [] = Unit {0}
  Paced gap last (t ∷ times) =
      (last + round_time ≤ t) × (t < last + round_time + gap) × Paced gap t times

  abbrev pub Kept : ℕ → Rounds → List ℕ → Rounds → Type 0
  Kept gap c times c' = Paced gap c.last_round times × (c'.rounds ≡ c.rounds + length times)

  -- What an iteration does to the rounds.
  Moves : Tick A → Rounds → Rounds → Type 0
  Moves t c c' =
      ((t.now < c.last_round + round_time) × (c' ≡ c))
      ⊎ ((c.last_round + round_time ≤ t.now)
          × (c' ≡ record { last_round = t.now; rounds = suc c.rounds }))

  iterate-Moves :
      (t : Tick A) (c : Rounds)
      → Moves t c (iterate sh is_special round_time drop_to ping_interval t c).0
  unfolding Moves iterate run_cat_round
  iterate-Moves t c = elim (Bool-cases (ltb t.now (c.last_round + round_time))) [
    | inl early ↦ inl (ltb→lt _ _ early, rw early refl)
    | inr due ↦ inr (ground (arith, due), rw due refl)
  ]

  Moves-lt :
      (t : Tick A) (c c' : Rounds)
      → 0 < round_time
      → Moves t c c'
      → t.now < c'.last_round + round_time
  unfolding Moves
  Moves-lt t c c' pos (inl (early, e)) = rw e early
  Moves-lt t c c' pos (inr (due, e)) = rw e (omega (arith, pos))

  Moves-Kept :
      (gap before : ℕ) (t : Tick A) (c c' : Rounds) (times : List ℕ) (last : Rounds)
      → before < c.last_round + round_time
      → t.now ≤ before + gap
      → Moves t c c'
      → Kept gap c' times last
      → Kept gap c (if c'.rounds == c.rounds then times else t.now ∷ times) last
  unfolding Moves
  Moves-Kept gap before t c c' times last h near (inl (early, e)) k =
      let same : (c.rounds == c.rounds) ≡ true = (==_iff c.rounds c.rounds).1 refl in
      rw (e, same) (rw e at k)
  Moves-Kept gap before t c c' times last h near (inr (due, e)) k =
      let new : (suc c.rounds == c.rounds) ≡ false = ground arith in
      let k' : Kept gap (record { last_round = t.now; rounds = suc c.rounds }) times last =
        rw e at k in
      rw (e, new) ((due, omega (arith, h, near), k'.0), omega (arith, k'.1))

  run-Kept :
      (gap before : ℕ) (ticks : List (Tick A)) (c : Rounds)
      → 0 < round_time
      → before < c.last_round + round_time
      → Steady gap before ticks
      → Kept gap c
          (round_times ticks c)
          (run sh is_special round_time drop_to ping_interval ticks c)
  unfolding run round_times
  run-Kept gap before [] c pos h s = (tt, omega arith)
  run-Kept gap before (t ∷ ticks) c pos h s =
      let c' = (iterate sh is_special round_time drop_to ping_interval t c).0 in
      let m = iterate-Moves t c in
      Moves-Kept gap before t c c' (round_times ticks c')
        (run sh is_special round_time drop_to ping_interval ticks c') h s.1 m
        (run-Kept gap t.now ticks c' pos (Moves-lt t c c' pos m) s.2)

  -- Where the loop's iterations are at most `gap` apart and the round time is not 0, any two rounds
  -- after each other, and the start and the first of them, are the round time or more apart and
  -- less than the round time and `gap`, and every round is counted.
  pub run-Paced :
      (gap : ℕ) (ticks : List (Tick A)) (c : Rounds)
      → 0 < round_time
      → Steady gap c.last_round ticks
      → Kept gap c
          (round_times ticks c)
          (run sh is_special round_time drop_to ping_interval ticks c)
  run-Paced gap ticks c pos s = run-Kept gap c.last_round ticks c pos (omega (arith, pos)) s
