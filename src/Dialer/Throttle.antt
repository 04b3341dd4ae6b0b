-- ===== src/Dialer/Throttle.antt =====
-- How far apart the attempts to connect to one endpoint are.
use factom_p2p.Prelude.{
  ℕ, ◌+◌, ◌≡◌, refl, false, not, ◌&&◌, Option, none, some, List, [], ◌∷◌, lookup, insert,
  lookup-insert, leb, SpacedFrom, arith, Bool-cases, inl, inr, if◌then◌else◌,
}
use factom_p2p.Endpoint.{Endpoint, equal, endpoint_eq, equal_iff}
use factom_p2p.Dialer.{Dialer, new_dialer, is_over, can_dial, too_soon, dial, dial_all}

module _ (now : ℕ) (d : Dialer) (ep : Endpoint) where
  too_soon-is_over :
      (last : Option ℕ) → too_soon d.interval now last ≡ not (is_over d.interval now last)
  too_soon-is_over none = refl
  too_soon-is_over (some t) = ground arith

  -- Dial attempts the connection just where CanDial holds at that time, and CanDial then holds for
  -- this endpoint once the interval has passed since; for other endpoints Dial changes nothing.
  pub can_dial-dial :
      (later : ℕ) (other : Endpoint)
      → ((dial now d ep).1 ≡ can_dial now d ep)
        × (can_dial later (dial now d ep).0 other ≡ (
            if (dial now d ep).1 && equal ep other
            then leb (now + d.interval) later
            else can_dial later d other))
  unfolding dial can_dial
  can_dial-dial later other =
      rw (too_soon-is_over (lookup ep d.attempts))
        (elim (Bool-cases (is_over d.interval now (lookup ep d.attempts))) [
          | inl over ↦ rw (over, lookup-insert ep other now d.attempts) (refl, ground arith)
          | inr soon ↦ rw soon (refl, refl)
        ])

-- The times of the attempts to connect to one endpoint.
unfoldable pub attempts_to : Endpoint → List (ℕ × Endpoint) → List ℕ
attempts_to ep [] = []
attempts_to ep ((now, other) ∷ log) =
    let rest = attempts_to ep log in if equal other ep then now ∷ rest else rest

abbrev pub SpacedAfter : ℕ → Option ℕ → List ℕ → Type 0
SpacedAfter interval none [] = Unit
SpacedAfter interval none (t ∷ ts) = SpacedFrom interval t ts
SpacedAfter interval (some last) ts = SpacedFrom interval last ts

SpacedAfter-dial :
    (interval now : ℕ) (last : Option ℕ) (ts : List ℕ)
    → too_soon interval now last ≡ false
    → SpacedAfter interval (some now) ts
    → SpacedAfter interval last (now ∷ ts)
SpacedAfter-dial interval now none ts h s = s
SpacedAfter-dial interval now (some last) ts h s = (ground arith, s)

module _ (ep : Endpoint) where
  dial_all-SpacedAfter :
      (d : Dialer) (calls : List (ℕ × Endpoint))
      → SpacedAfter d.interval (lookup ep d.attempts) (attempts_to ep (dial_all d calls))
  unfolding dial_all attempts_to dial
  dial_all-SpacedAfter d [] = empty d.interval (lookup ep d.attempts)
    where
      empty : (interval : ℕ) (last : Option ℕ) → SpacedAfter interval last []
      empty interval none = tt
      empty interval (some last) = tt
  dial_all-SpacedAfter d ((now, other) ∷ calls) =
      elim (Bool-cases (too_soon d.interval now (lookup other d.attempts))) [
        | inl soon ↦ rw soon (dial_all-SpacedAfter d calls)
        | inr late ↦
            let d' : Dialer = record d { attempts = insert other now d.attempts } in
            let rest : SpacedAfter d.interval
                (if equal other ep then some now else lookup ep d.attempts)
                (attempts_to ep (dial_all d' calls)) =
              rw (lookup-insert other ep now d.attempts) at (dial_all-SpacedAfter d' calls) in
            elim (Bool-cases (equal other ep)) [
              | inl mine ↦
                  let e : other ≡ ep = (equal_iff other ep).0 mine in
                  rw (late, mine)
                    (SpacedAfter-dial d.interval now (lookup ep d.attempts)
                      (attempts_to ep (dial_all d' calls)) (rw (← e) late) (rw mine at rest))
              | inr another ↦ rw (late, another) (rw another at rest)
            ]
      ]

  -- Whatever is dialled and when, the attempts to connect to one endpoint are the interval or more
  -- apart.
  pub dial_all-Spaced :
      (interval : ℕ) (calls : List (ℕ × Endpoint))
      → SpacedAfter interval none (attempts_to ep (dial_all (new_dialer interval) calls))
  unfolding new_dialer lookup
  dial_all-Spaced interval calls = dial_all-SpacedAfter (new_dialer interval) calls
