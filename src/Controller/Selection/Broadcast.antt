-- ===== src/Controller/Selection/Broadcast.antt =====
-- Whom a broadcast reaches.
use mathlib.Core.List.Perm
use mathlib.Core.List.{append_assoc, append-nil}
use factom_p2p.Prelude.{
  ℕ, zero, suc, ◌≤◌, ◌≡◌, ◌∙◌, refl, Bool, not, List, [], ◌∷◌, ◌++◌, Perm, length, take, drop,
  select, count_if, leb, ltb, arith, min, leb→le, length-take, length-select, count_if-append,
  count_if-le-length, count_if-not, count_if-perm, length-perm, select-perm, count_if-not-select,
  count_if-select, take-append-drop, Bool-cases, inl, inr,
}
use factom_p2p.Controller.Selection.{Shuffle, select_broadcast_peers}

module _ {A : Type 0} where
  -- Where nothing in a list passes a test, nothing in a part of it does.
  pub count_if-drop_zero :
      (p : A → Bool) (n : ℕ) (xs : List A) → count_if p xs ≡ 0 → count_if p (drop n xs) ≡ 0
  count_if-drop_zero p zero xs h = h
  count_if-drop_zero p (suc n) [] h = refl
  count_if-drop_zero p (suc n) (x ∷ xs) h = count_if-drop_zero p n xs (ground arith)

  pub count_if-take_zero :
      (p : A → Bool) (n : ℕ) (xs : List A) → count_if p xs ≡ 0 → count_if p (take n xs) ≡ 0
  count_if-take_zero p zero xs h = refl
  count_if-take_zero p (suc n) [] h = refl
  count_if-take_zero p (suc n) (x ∷ xs) h = ground (arith, count_if-take_zero p n xs)

  module _ (sh : Shuffle A) (is_special : A → Bool) (peers : List A) (fanout : ℕ) where
    abbrev regular : List A
    regular = select (λ p. not (is_special p)) peers

    -- The peers that a broadcast reaches, those that it leaves out, and what they are.
    abbrev pub Reaches : List A → List A → Type 0
    Reaches chosen rest =
        Perm (chosen ++ rest) peers
        × (count_if is_special rest ≡ 0)
        × (count_if (λ p. not (is_special p)) chosen
            ≡ min fanout (count_if (λ p. not (is_special p)) peers))

    few_regular : length regular ≤ fanout → Reaches (select is_special peers ++ regular) []
    few_regular h = (
      rw (append-nil (select is_special peers ++ regular)) (select-perm is_special peers),
      refl,
      count_if-perm (λ p. not (is_special p)) _ peers (select-perm is_special peers)
          ∙ omega (arith, length-select (λ p. not (is_special p)) peers),
    )

    shuffled_regular : count_if is_special (sh.shuffle regular) ≡ 0
    shuffled_regular =
        count_if-perm is_special _ regular (sh.permutes regular)
        ∙ count_if-not-select is_special peers

    chosen_regular :
        count_if (λ p. not (is_special p)) (take fanout (sh.shuffle regular))
        ≡ min fanout (length regular)
    chosen_regular = omega (
      arith,
      count_if-not is_special (take fanout (sh.shuffle regular)),
      count_if-take_zero is_special fanout (sh.shuffle regular) shuffled_regular,
      length-take fanout (sh.shuffle regular),
      length-perm (sh.shuffle regular) regular (sh.permutes regular),
    )

    special_regular : count_if (λ p. not (is_special p)) (select is_special peers) ≡ 0
    special_regular = omega (
      arith,
      count_if-not is_special (select is_special peers),
      count_if-select is_special peers,
      length-select is_special peers,
    )

    many_regular :
        Reaches
          (select is_special peers ++ take fanout (sh.shuffle regular))
          (drop fanout (sh.shuffle regular))
    many_regular = (
      rw (append_assoc, take-append-drop)
          (Perm.trans (Perm.append_left _ (sh.permutes regular)) (select-perm is_special peers)),
      count_if-drop_zero is_special fanout (sh.shuffle regular) shuffled_regular,
      omega (
        arith,
        count_if-append (λ p. not (is_special p)) (select is_special peers)
            (take fanout (sh.shuffle regular)),
        special_regular,
        chosen_regular,
        length-select (λ p. not (is_special p)) peers,
      ),
    )

    -- A broadcast goes to every special peer and to as many of the regular peers as the fanout
    -- allows, all of them if there are no more than that, and to no peer more often than it is
    -- connected: with the peers that are left out, who are all regular, the chosen ones are the
    -- connected ones in some order.
    pub broadcast-Reaches :
        (rest : List A) × Reaches (select_broadcast_peers sh is_special peers fanout) rest
    unfolding select_broadcast_peers
    broadcast-Reaches = elim (Bool-cases (leb (length peers) fanout)) [
      | inl few ↦ rw few (
        [],
        (
          rw (append-nil peers) (Perm.refl peers),
          refl,
          omega (arith, count_if-le-length (λ p. not (is_special p)) peers, leb→le _ _ few),
        ),
      )
      | inr many ↦ elim (Bool-cases (ltb (length regular) fanout)) [
        | inl less ↦ rw (many, less) ([], few_regular (ground arith))
        | inr more ↦ rw (many, more) (drop fanout (sh.shuffle regular), many_regular)
      ]
    ]
