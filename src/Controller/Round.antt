-- ===== src/Controller/Round.antt =====
-- runCatRound of controller_cat.go. The calls of Stop are the list of the peers that they are
-- made on; the peer file is written in between (Controller/Bans/Cache.antt). The two readings of the
-- clock are one, and DropTo is below 2^63, so that int(DropTo) is DropTo.
mod Tests
use mathlib.Core.List.Perm
use mathlib.Core.List.{append_assoc}
use factom_p2p.Prelude.{
  ℕ, zero, suc, ◌+◌, ◌-◌, ◌≤◌, ◌<◌, ◌≡◌, ◌∙◌, refl, sym, ap, Bool, true, false, not, List, [], ◌∷◌,
  ◌++◌, Perm, length, take, drop, select, count_if, leb, ltb, arith, min, ltb→lt, length-take,
  length-select, count_if-perm, length-perm, select-perm, take-append-drop, count_if-not-select,
  Bool-cases, inl, inr, if◌then◌else◌,
}
use factom_p2p.Controller.Selection.{Shuffle}
use factom_p2p.Controller.Selection.Broadcast.{count_if-take_zero, count_if-drop_zero}

pub record Rounds : Type 0 where
  pub last_round : ℕ
  pub rounds : ℕ

module _ {A : Type 0} where
  -- for _, i := range perm { … }
  unfoldable pub drop_loop : (A → Bool) → ℕ → ℕ → List A → List A
  drop_loop is_special to_drop dropped [] = []
  drop_loop is_special to_drop dropped (p ∷ ps) =
      let skipped = drop_loop is_special to_drop dropped ps in
      let more = drop_loop is_special to_drop (suc dropped) ps in
      if is_special p then skipped else if leb to_drop (suc dropped) then p ∷ [] else p ∷ more

  -- `toDrop > 0` is the test that more peers are connected than the target.
  unfoldable pub drop_peers : Shuffle A → (A → Bool) → ℕ → List A → List A
  unfolding drop_loop
  drop_peers sh is_special drop_to peers =
      if ltb drop_to (length peers)
      then drop_loop is_special (length peers - drop_to) 0 (sh.shuffle peers)
      else []

  -- `time.Since(c.lastRound) < RoundTime` is `now < last + round_time`.
  unfoldable pub run_cat_round :
      Shuffle A → (A → Bool) → ℕ → ℕ → ℕ → List A → Rounds → Rounds × List A
  unfolding drop_peers
  run_cat_round sh is_special round_time drop_to now peers c =
      if ltb now (c.last_round + round_time) then (c, []) else (
        record { last_round = now; rounds = suc c.rounds },
        drop_peers sh is_special drop_to peers,
      )

  module _ (is_special : A → Bool) where
    drop_loop_lem :
        (to_drop dropped : ℕ) (ps : List A)
        → dropped < to_drop
        → drop_loop is_special to_drop dropped ps
          ≡ take (to_drop - dropped) (select (λ p. not (is_special p)) ps)
    unfolding drop_loop
    drop_loop_lem to_drop dropped [] h =
        let e : to_drop - dropped ≡ suc (to_drop - dropped - 1) = omega arith in rw e
    drop_loop_lem to_drop dropped (p ∷ ps) h = elim (Bool-cases (is_special p)) [
      | inl e ↦ rw e (drop_loop_lem to_drop dropped ps h)
      | inr e ↦ elim (Bool-cases (leb to_drop (suc dropped))) [
        | inl last ↦ let one : to_drop - dropped ≡ 1 = ground arith in rw (e, last, one) refl
        | inr more ↦
            let next : to_drop - dropped ≡ suc (to_drop - suc dropped) = ground arith in
            rw (e, more, next)
              (ap (λ l. p ∷ l) (drop_loop_lem to_drop (suc dropped) ps (ground arith)))
      ]
    ]

    module _ (sh : Shuffle A) (drop_to : ℕ) (peers : List A) where
      abbrev regular : List A
      regular = select (λ p. not (is_special p)) (sh.shuffle peers)

      drop_peers_lem :
          drop_to < length peers
          → drop_peers sh is_special drop_to peers ≡ take (length peers - drop_to) regular
      unfolding drop_peers
      drop_peers_lem h =
          let e : length peers - drop_to - 0 ≡ length peers - drop_to = omega arith in
          let t : ltb drop_to (length peers) ≡ true = ground arith in
          rw t (rw e at (drop_loop_lem (length peers - drop_to) 0 (sh.shuffle peers) (omega arith)))

      drop_peers_none :
          ltb drop_to (length peers) ≡ false → drop_peers sh is_special drop_to peers ≡ []
      unfolding drop_peers
      drop_peers_none h = rw h

      -- What a round stops and what it leaves connected.
      abbrev pub Drops : List A → List A → Type 0
      Drops dropped rest =
          Perm (dropped ++ rest) peers
          × (count_if is_special dropped ≡ 0)
          × (length dropped
              ≡ min (length peers - drop_to) (count_if (λ p. not (is_special p)) peers))

      regular_dropped :
          drop_to < length peers
          → (rest : List A) × Drops (take (length peers - drop_to) regular) rest
      regular_dropped h =
          let n = length peers - drop_to in
          (
            drop n regular ++ select (λ p. not (not (is_special p))) (sh.shuffle peers),
            (
              rw (← append_assoc (take n regular) (drop n regular) _, take-append-drop n regular)
                  (Perm.trans (select-perm (λ p. not (is_special p)) (sh.shuffle peers))
                    (sh.permutes peers)),
              count_if-take_zero is_special n regular
                  (count_if-not-select is_special (sh.shuffle peers)),
              omega (
                arith,
                length-take n regular,
                length-select (λ p. not (is_special p)) (sh.shuffle peers),
                count_if-perm (λ p. not (is_special p)) (sh.shuffle peers) peers
                    (sh.permutes peers),
              ),
            ),
          )

      -- A round stops connected peers, none of them twice and none of them special, as many as
      -- there are above the target or as there are regular peers, whichever is less.
      pub drop_peers-Drops : (rest : List A) × Drops (drop_peers sh is_special drop_to peers) rest
      drop_peers-Drops = elim (Bool-cases (ltb drop_to (length peers))) [
        | inl over ↦ rw (drop_peers_lem (ltb→lt _ _ over)) (regular_dropped (ltb→lt _ _ over))
        | inr under ↦ rw (drop_peers_none under) (peers, (Perm.refl peers, refl, ground arith))
      ]
