-- ===== src/Limiter/History.antt =====
-- The history of a limiter against the list of all the connections that it has accepted.
use factom_p2p.Prelude.{
  ℕ, ◌+◌, ◌≤◌, ◌<◌, ◌≡◌, refl, sym, ap, ◌∙◌, Bool, true, false, ◌&&◌, List, [], ◌∷◌, ◌++◌, arith,
  ltb, str_eq, if◌then◌else◌, All, All-append, Bool-cases, ltb→lt, inl, inr,
}
use mathlib.Core.List.{append-nil, append_assoc}
use factom_p2p.Net.{GoString}
use factom_p2p.Limiter.{Attempt, Limiter, skip_old, clear_history, has_host, add_to_history}

-- Times do not fall along the list, and none is past `now`.
abbrev pub Sorted : ℕ → List Attempt → Type 0
Sorted now [] = Unit {0}
Sorted now (a ∷ es) = (a.time ≤ now) × All (λ b. a.time ≤ b.time) es × Sorted now es

abbrev pub Stale : ℕ → ℕ → List Attempt → Type 0
Stale now limit = All (λ a. a.time + limit ≤ now)

-- The log's older part has gone stale by `now`, and the history is the rest of it.
pub record Keeps (now : ℕ) (log : List Attempt) (ll : Limiter) : Type 0 where
  pub gone : List Attempt
  pub whole : log ≡ gone ++ ll.history
  pub gone_stale : Stale now ll.limit gone
  pub sorted : Sorted now ll.history
  pub last_bound : All (λ a. a.time ≤ ll.last_connection) ll.history

pub Stale-mono : (m n limit : ℕ) (es : List Attempt) → m ≤ n → Stale m limit es → Stale n limit es
Stale-mono m n limit [] h s = tt
Stale-mono m n limit (a ∷ es) h s = (omega arith, Stale-mono m n limit es h s.1)

pub Sorted-mono : (m n : ℕ) (es : List Attempt) → m ≤ n → Sorted m es → Sorted n es
Sorted-mono m n [] h s = tt
Sorted-mono m n (a ∷ es) h s = (omega arith, s.1, Sorted-mono m n es h s.2)

pub Keeps-mono :
    (m n : ℕ) (log : List Attempt) (ll : Limiter) → m ≤ n → Keeps m log ll → Keeps n log ll
Keeps-mono m n log ll h k = record {
  gone = k.gone;
  whole = k.whole;
  gone_stale = Stale-mono m n ll.limit k.gone h k.gone_stale;
  sorted = Sorted-mono m n ll.history h k.sorted;
  last_bound = k.last_bound;
}

-- What `skip_old` cuts off is stale, and what it leaves is a later part of the list.
skipped : (now limit : ℕ) (es : List Attempt) → List Attempt
skipped now limit [] = []
skipped now limit (a ∷ es) =
    let rest = skipped now limit es in if ltb now (a.time + limit) then [] else a ∷ rest

skipped-append :
    (now limit : ℕ) (es : List Attempt) → skipped now limit es ++ skip_old now limit es ≡ es
unfolding skipped skip_old
skipped-append now limit [] = refl
skipped-append now limit (a ∷ es) = ground (arith, skipped-append now limit es)

skipped-Stale : (now limit : ℕ) (es : List Attempt) → Stale now limit (skipped now limit es)
unfolding skipped
skipped-Stale now limit [] = tt
skipped-Stale now limit (a ∷ es) = ground (arith, skipped-Stale now limit es)

skip_old-Sorted :
    (now n limit : ℕ) (es : List Attempt) → Sorted n es → Sorted n (skip_old now limit es)
unfolding skip_old
skip_old-Sorted now n limit [] s = tt
skip_old-Sorted now n limit (a ∷ es) s = ground (arith, skip_old-Sorted now n limit es s.2)

skip_old-All :
    (P : Attempt → Type 0) (now limit : ℕ) (es : List Attempt)
    → All P es
    → All P (skip_old now limit es)
unfolding skip_old
skip_old-All P now limit [] s = tt
skip_old-All P now limit (a ∷ es) s = elim (Bool-cases (ltb now (a.time + limit))) [
  | inl e ↦ rw (e, skip_old) s
  | inr e ↦ rw (e, skip_old) (skip_old-All P now limit es s.1)
]

-- Past the last connection's range every entry is stale.
too_old :
    (now limit last : ℕ) (es : List Attempt)
    → last + limit < now
    → All (λ a. a.time ≤ last) es
    → Stale now limit es
too_old now limit last [] h b = tt
too_old now limit last (a ∷ es) h b = (omega arith, too_old now limit last es h b.1)

-- The specification: a connection of the host that is younger than the limit.
unfoldable pub recently : ℕ → ℕ → GoString → List Attempt → Bool
recently now limit host [] = false
recently now limit host (a ∷ es) =
    if str_eq a.host host && ltb now (a.time + limit) then true else recently now limit host es

recently-Stale :
    (now limit : ℕ) (host : GoString) (old es : List Attempt)
    → Stale now limit old
    → recently now limit host (old ++ es) ≡ recently now limit host es
unfolding recently
recently-Stale now limit host [] es s = refl
recently-Stale now limit host (a ∷ old) es s =
    ground (arith, recently-Stale now limit host old es s.1)

recently-young :
    (now limit : ℕ) (host : GoString) (t : ℕ) (es : List Attempt)
    → now < t + limit
    → All (λ b. t ≤ b.time) es
    → recently now limit host es ≡ has_host host es
unfolding recently has_host
recently-young now limit host t [] h y = refl
recently-young now limit host t (a ∷ es) h y =
    ground (arith, recently-young now limit host t es h y.1)

has_host-skip_old :
    (now limit n : ℕ) (host : GoString) (es : List Attempt)
    → Sorted n es
    → has_host host (skip_old now limit es) ≡ recently now limit host es
unfolding recently skip_old has_host
has_host-skip_old now limit n host [] s = refl
has_host-skip_old now limit n host (a ∷ es) s =
    ground
      (arith, has_host-skip_old now limit n host es s.2, recently-young now limit host a.time es)

module _ (now : ℕ) (log : List Attempt) (ll : Limiter) (k : Keeps now log ll) where
  cleared_all : ll.last_connection + ll.limit < now → Keeps now log (record ll { history = [] })
  cleared_all old = record {
    gone = log;
    whole = sym (append-nil log);
    gone_stale = rw k.whole (
        All-append _ k.gone ll.history k.gone_stale
          (too_old now ll.limit ll.last_connection ll.history old k.last_bound));
    sorted = tt;
    last_bound = tt;
  }

  cleared_old : Keeps now log (record ll { history = skip_old now ll.limit ll.history })
  cleared_old = record {
    gone = k.gone ++ skipped now ll.limit ll.history;
    whole =
        k.whole
        ∙ ap (◌++◌ k.gone) (sym (skipped-append now ll.limit ll.history))
        ∙ sym (append_assoc k.gone _ _);
    gone_stale = All-append _ k.gone _ k.gone_stale (skipped-Stale now ll.limit ll.history);
    sorted = skip_old-Sorted now now ll.limit ll.history k.sorted;
    last_bound = skip_old-All _ now ll.limit ll.history k.last_bound;
  }

  pub clear_history-Keeps : Keeps now log (clear_history now ll)
  unfolding clear_history skip_old
  clear_history-Keeps = elim (Bool-cases (ltb (ll.last_connection + ll.limit) now)) [
    | inl old ↦ rw (old, clear_history) (cleared_all (ground arith))
    | inr young ↦ rw (young, clear_history) cleared_old
  ]

  -- The test of the history is the specification over everything that was ever accepted.
  pub has_host-clear_history :
      (host : GoString)
      → has_host host (clear_history now ll).history ≡ recently now ll.limit host log
  unfolding clear_history cleared_all has_host recently skip_old
  has_host-clear_history host = elim (Bool-cases (ltb (ll.last_connection + ll.limit) now)) [
    | inl old ↦
        rw (old, clear_history)
          (sym (recently-Stale now ll.limit host log [] (cleared_all (ltb→lt _ _ old)).gone_stale)
            ∙ ap (recently now ll.limit host) (append-nil log))
    | inr young ↦
        rw
          (
            young,
            clear_history,
            k.whole,
            recently-Stale now ll.limit host k.gone ll.history k.gone_stale,
          )
          (has_host-skip_old now ll.limit now host ll.history k.sorted)
  ]

Sorted-bound : (now n : ℕ) (es : List Attempt) → now ≤ n → Sorted now es → All (λ a. a.time ≤ n) es
Sorted-bound now n [] h s = tt
Sorted-bound now n (a ∷ es) h s = (omega arith, Sorted-bound now n es h s.2)

Sorted-snoc :
    (m n p : ℕ) (e : Attempt) (es : List Attempt)
    → m ≤ e.time
    → e.time ≤ p
    → Sorted m es
    → Sorted p (es ++ e ∷ [])
Sorted-snoc m n p e [] h k s = (k, tt, tt)
Sorted-snoc m n p e (a ∷ es) h k s =
    (omega arith, All-append _ es (e ∷ []) s.1 (omega arith, tt), Sorted-snoc m n p e es h k s.2)

-- Adding a connection to the history adds it to the log.
pub add_to_history-Keeps :
    (now added stamped : ℕ) (host : GoString) (log : List Attempt) (ll : Limiter)
    → now ≤ added
    → added ≤ stamped
    → Keeps now log ll
    → Keeps stamped
        (log ++ record { host = host; time = added } ∷ [])
        (add_to_history added stamped host ll)
unfolding add_to_history
add_to_history-Keeps now added stamped host log ll h k v = record {
  gone = v.gone;
  whole =
      ap (λ l. l ++ record { host = host; time = added } ∷ []) v.whole
      ∙ append_assoc v.gone ll.history _;
  gone_stale = Stale-mono now stamped ll.limit v.gone (omega arith) v.gone_stale;
  sorted = Sorted-snoc now stamped stamped _ ll.history h k v.sorted;
  last_bound =
      All-append _ ll.history _ (Sorted-bound now stamped ll.history (omega arith) v.sorted)
        (k, tt);
}
