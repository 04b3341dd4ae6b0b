-- ===== src/Seed/Freshness.antt =====
-- How old the list of the seed can be, and how often its page is asked for.
use mathlib.Core.List.Perm
use factom_p2p.Prelude.{
  ℕ, ◌+◌, ◌≤◌, ◌<◌, ◌≡◌, refl, ◌⊎◌, inl, inr, Option, none, some, List, [], ◌∷◌, ◌++◌, Perm, arith,
  leb, leb→le, Bool-cases,
}
use factom_p2p.Net.{IpParser}
use factom_p2p.Endpoint.{Endpoint}
use factom_p2p.Controller.Selection.{Shuffle}
use factom_p2p.Seed.Page.{endpoints_of}
use factom_p2p.Seed.{Seed, Call, new_seed, fetch, retrieve, retrieve_cached, shuffle_cache}

-- The calls, and what the caller does to the list.
pub data Op : Type 0 where
  retrieves : Call → Op
  shuffles : Shuffle Endpoint → Op

module _ (net : IpParser) where
  -- The seed after the operations, and the requests that were made, the last of them first.
  unfoldable pub step : Op → Seed × List Call → Seed × List Call
  step (retrieves c) (s, log) = let (s', eps, requests) = retrieve net c s in (s', requests ++ log)
  step (shuffles sh) (s, log) = (shuffle_cache net sh s, log)

  unfoldable pub run : Seed × List Call → List Op → Seed × List Call
  run s [] = s
  run s (op ∷ ops) = run (step op s) ops

  -- The cache is the list of the last request.
  abbrev Held : Option (List Endpoint) → ℕ → List Call → Type 0
  Held none t log = log ≡ []
  Held (some eps) t [] = ⊥
  Held (some eps) t (c ∷ log) = (c.stored ≡ t) × Perm eps (endpoints_of net c.response)

  -- Every request was made later than `ttl` after the end of the one before.
  abbrev pub Spaced : ℕ → List Call → Type 0
  Spaced ttl [] = Unit {0}
  Spaced ttl (c ∷ []) = Unit {0}
  Spaced ttl (c ∷ before ∷ log) = (before.stored + ttl < c.checked) × Spaced ttl (before ∷ log)

  record Tracks (ttl : ℕ) (s : Seed × List Call) : Type 0 where
    same_ttl : s.0.cache_ttl ≡ ttl
    held : Held s.0.cache s.0.cache_time s.1
    spaced : Spaced ttl s.1

  -- The list of a call to retrieve is the one of the last request, which is the call's own or has
  -- ended at most `ttl` before it.
  abbrev pub Latest : ℕ → Call → List Endpoint → List Call → Type 0
  Latest ttl c eps [] = ⊥
  Latest ttl c eps (r ∷ log) =
      Perm eps (endpoints_of net r.response) × ((r ≡ c) ⊎ (c.checked ≤ r.stored + ttl))

  Good : ℕ → Call → Seed × List Endpoint × List Call → List Call → Type 0
  Good ttl c (s, eps, requests) log =
      Tracks ttl (s, requests ++ log) × Latest ttl c eps (requests ++ log)

  fetch-Good :
      (ttl : ℕ) (c : Call) (s : Seed) (log : List Call)
      → s.cache_ttl ≡ ttl
      → Spaced ttl (c ∷ log)
      → Good ttl c (fetch net c s) log
  unfolding Good fetch endpoints_of
  fetch-Good ttl c s log l h =
      (record { same_ttl = l; held = (refl, Perm.refl _); spaced = h }, (Perm.refl _, inl refl))

  Spaced-fetch :
      (ttl : ℕ) (c : Call) (eps : List Endpoint) (t : ℕ) (log : List Call)
      → Held (some eps) t log
      → t + ttl < c.checked
      → Spaced ttl log
      → Spaced ttl (c ∷ log)
  Spaced-fetch ttl c eps t [] held h k = tt
  Spaced-fetch ttl c eps t (r ∷ log) held h k = (omega (arith, held.0, h), k)

  cached-Latest :
      (ttl : ℕ) (c : Call) (eps : List Endpoint) (t : ℕ) (log : List Call)
      → Held (some eps) t log
      → c.checked ≤ t + ttl
      → Latest ttl c eps log
  cached-Latest ttl c eps t [] held h = held
  cached-Latest ttl c eps t (r ∷ log) held h = (held.1, inr (omega (arith, held.0, h)))

  retrieve_cached-Good :
      (ttl : ℕ) (c : Call) (o : Option (List Endpoint)) (s : Seed) (log : List Call)
      → s.cache ≡ o
      → s.cache_ttl ≡ ttl
      → Held o s.cache_time log
      → Spaced ttl log
      → Good ttl c (retrieve_cached net o c s) log
  unfolding Good
  retrieve_cached-Good ttl c none s log e l held h = fetch-Good ttl c s log l (rw held tt)
  retrieve_cached-Good ttl c (some eps) s log e l held h =
      elim (Bool-cases (leb c.checked (s.cache_time + s.cache_ttl))) [
        | inl kept ↦ rw kept (
          record { same_ttl = l; held = rw e held; spaced = h },
          cached-Latest ttl c eps s.cache_time log held
              (ground (arith, l, leb→le c.checked (s.cache_time + s.cache_ttl) kept)),
        )
        | inr old ↦ rw old (
            fetch-Good ttl c s log l
              (Spaced-fetch ttl c eps s.cache_time log held (ground (arith, old, l)) h))
      ]

  retrieve-Good :
      (ttl : ℕ) (c : Call) (s : Seed) (log : List Call)
      → Tracks ttl (s, log)
      → Good ttl c (retrieve net c s) log
  unfolding retrieve
  retrieve-Good ttl c s log h =
      retrieve_cached-Good ttl c s.cache s log refl h.same_ttl h.held h.spaced

  shuffle_cache-Held :
      (sh : Shuffle Endpoint) (o : Option (List Endpoint)) (t : ℕ) (log : List Call)
      → Held o t log
      → Held (elim o [ none ↦ none | some eps ↦ some (sh.shuffle eps) ]) t log
  shuffle_cache-Held sh none t log h = h
  shuffle_cache-Held sh (some eps) t [] h = h
  shuffle_cache-Held sh (some eps) t (c ∷ log) h = (h.0, Perm.trans (sh.permutes eps) h.1)

  run-Tracks :
      (ttl : ℕ) (s : Seed × List Call) (ops : List Op) → Tracks ttl s → Tracks ttl (run s ops)
  unfolding run step Good shuffle_cache
  run-Tracks ttl s [] h = h
  run-Tracks ttl s (retrieves c ∷ ops) h =
      run-Tracks ttl (step (retrieves c) s) ops (retrieve-Good ttl c s.0 s.1 h).0
  run-Tracks ttl s (shuffles sh ∷ ops) h = run-Tracks ttl (step (shuffles sh) s) ops (record {
    same_ttl = h.same_ttl;
    held = shuffle_cache-Held sh s.0.cache s.0.cache_time s.1 h.held;
    spaced = h.spaced;
  })

  new_seed-Tracks : (ttl : ℕ) → Tracks ttl (new_seed ttl, [])
  unfolding new_seed
  new_seed-Tracks ttl = record { same_ttl = refl; held = refl; spaced = tt }

  -- In any sequence of calls to retrieve, with shuffles of the list that the caller holds between
  -- them, each request for the page is made later than the time to live after the end of the
  -- request before it.
  pub requests-Spaced : (ttl : ℕ) (ops : List Op) → Spaced ttl (run (new_seed ttl, []) ops).1
  requests-Spaced ttl ops = (run-Tracks ttl (new_seed ttl, []) ops (new_seed-Tracks ttl)).spaced

  unfoldable pub LatestAfter : ℕ → Call → Seed × List Call → Type 0
  LatestAfter ttl c (s, log) =
      let (s', eps, requests) = retrieve net c s in Latest ttl c eps (requests ++ log)

  -- After any calls and shuffles, a call to retrieve returns the endpoints of the last response,
  -- in some order; that request is the call's own, or it ended at most the time to live before.
  pub retrieve-Latest :
      (ttl : ℕ) (ops : List Op) (c : Call) → LatestAfter ttl c (run (new_seed ttl, []) ops)
  unfolding Good LatestAfter
  retrieve-Latest ttl ops c =
      let st = run (new_seed ttl, []) ops in
      (retrieve-Good ttl c st.0 st.1
        (run-Tracks ttl (new_seed ttl, []) ops (new_seed-Tracks ttl))).1
