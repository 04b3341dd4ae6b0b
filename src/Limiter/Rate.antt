-- ===== src/Limiter/Rate.antt =====
-- Accept over a sequence of calls: the outcomes that a full record of the accepted connections
-- would give, and the spacing of the connections that are let in.
use mathlib.Core.List.{append-nil, append_assoc}
use factom_p2p.Prelude.{
  ℕ, ◌+◌, ◌≤◌, ◌≡◌, refl, ◌∙◌, false, Option, none, some, List, [], ◌∷◌, ◌++◌, arith, All,
  All-append, str_eq_iff, if◌then◌else◌, Bool-cases, Option-cases, inl, inr,
}
use factom_p2p.Net.{GoString, split_host_port}
use factom_p2p.Limiter.{
  Attempt, Limiter, Clock, Outcome, accepted, listen_failed, bad_address, rate_exceeded,
  new_limiter, clear_history, has_host, is_in_history, add_to_history, admit, accept,
}
use factom_p2p.Limiter.History.{
  add_to_history-Keeps, Keeps, Keeps-mono, recently, clear_history-Keeps, has_host-clear_history,
}

abbrev pub Call : Type 0
Call = Clock × Option GoString

-- The clock does not run backwards, within a call and from call to call.
abbrev pub Ordered : ℕ → List Call → Type 0
Ordered now [] = Unit {0}
Ordered now ((c, address) ∷ calls) =
    (now ≤ c.checked) × (c.checked ≤ c.added) × (c.added ≤ c.stamped) × Ordered c.stamped calls

unfoldable pub run : Limiter → List Call → List Outcome
run ll [] = []
run ll ((c, address) ∷ calls) = let (ll', o) = accept c address ll in o ∷ run ll' calls

-- The connection that an outcome lets in, if any.
abbrev pub let_in : Clock → Outcome → List Attempt
let_in c (accepted host) = record { host = host; time = c.added } ∷ []
let_in c listen_failed = []
let_in c bad_address = []
let_in c (rate_exceeded host) = []

-- The connections that a run of calls lets in.
unfoldable pub log_of : Limiter → List Call → List Attempt
log_of ll [] = []
log_of ll ((c, address) ∷ calls) =
    let (ll', o) = accept c address ll in let_in c o ++ log_of ll' calls

-- The specification keeps every accepted connection for ever.
unfoldable pub reference_outcome : ℕ → List Attempt → Clock → Option GoString → Outcome
reference_outcome limit log c none = listen_failed
reference_outcome limit log c (some address) = elim (split_host_port address) [
  | none ↦ bad_address
  | some (host, port) ↦
      if recently c.checked limit host log then rate_exceeded host else accepted host
]

unfoldable pub reference_run : ℕ → List Attempt → List Call → List Outcome
reference_run limit log [] = []
reference_run limit log ((c, address) ∷ calls) =
    let o = reference_outcome limit log c address in
    o ∷ reference_run limit (log ++ let_in c o) calls

-- After one call the history is in step with the log again.
abbrev Follows : Clock → List Attempt → ℕ → Limiter × Outcome → Type 0
Follows c log limit (ll, o) = (ll.limit ≡ limit) × Keeps c.stamped (log ++ let_in c o) ll

idle-Follows :
    (now : ℕ) (c : Clock) (log : List Attempt) (ll : Limiter) (o : Outcome)
    → now ≤ c.stamped
    → let_in c o ≡ []
    → Keeps now log ll
    → Follows c log ll.limit (ll, o)
idle-Follows now c log ll o h e k =
    (refl, rw (e, append-nil log) (Keeps-mono now c.stamped log ll h k))

module _ (c : Clock) (h : c.checked ≤ c.added) (s : c.added ≤ c.stamped) (log : List Attempt) where
  admit-Follows :
      (ll : Limiter) (host : GoString)
      → Keeps c.checked log ll
      → Follows c log ll.limit (admit c host ll)
  unfolding admit is_in_history clear_history add_to_history
  admit-Follows ll host k =
      let k' = clear_history-Keeps c.checked log ll k in
      elim (Bool-cases (has_host host (clear_history c.checked ll).history)) [
        | inl seen ↦
            rw (seen, admit)
              (idle-Follows c.checked c log _ (rate_exceeded host) (omega arith) refl k')
        | inr new ↦
            rw (new, admit)
              (refl, add_to_history-Keeps c.checked c.added c.stamped host log _ h s k')
      ]

  admit-outcome :
      (ll : Limiter) (host : GoString)
      → Keeps c.checked log ll
      → (admit c host ll).1
        ≡ (if recently c.checked ll.limit host log then rate_exceeded host else accepted host)
  unfolding admit is_in_history
  admit-outcome ll host k = ground (arith, has_host-clear_history c.checked log ll k host)

  accept-Follows :
      (ll : Limiter) (address : Option GoString)
      → Keeps c.checked log ll
      → Follows c log ll.limit (accept c address ll)
  unfolding accept
  accept-Follows ll none k = idle-Follows c.checked c log ll listen_failed (omega arith) refl k
  accept-Follows ll (some address) k = elim (Option-cases (split_host_port address)) [
    | inl e ↦ rw (e, accept) (idle-Follows c.checked c log ll bad_address (omega arith) refl k)
    | inr ((host, port), e) ↦ rw (e, accept) (admit-Follows ll host k)
  ]

  accept-outcome :
      (ll : Limiter) (address : Option GoString)
      → Keeps c.checked log ll
      → (accept c address ll).1 ≡ reference_outcome ll.limit log c address
  unfolding accept reference_outcome
  accept-outcome ll none k = refl
  accept-outcome ll (some address) k = elim (Option-cases (split_host_port address)) [
    | inl e ↦ rw (e, accept, reference_outcome)
    | inr ((host, port), e) ↦ rw (e, accept, reference_outcome) (admit-outcome ll host k)
  ]

run-Keeps :
    (now limit : ℕ) (log : List Attempt) (ll : Limiter) (calls : List Call)
    → Ordered now calls
    → ll.limit ≡ limit
    → Keeps now log ll
    → run ll calls ≡ reference_run limit log calls
unfolding run reference_run
run-Keeps now limit log ll [] o e k = refl
run-Keeps now limit log ll ((c, address) ∷ calls) (a, b, d, o) e k =
    let k' = Keeps-mono now c.checked log ll a k in
    let (same, next) = accept-Follows c b d log ll address k' in
    let out = accept-outcome c b d log ll address k' in
    rw (← e) (
      cc (
        out,
        run-Keeps c.stamped limit (log ++ let_in c (accept c address ll).1) (accept c address ll).0
            calls o (same ∙ e) next,
        e,
      ))

new_limiter-Keeps : (limit : ℕ) → Keeps 0 [] (new_limiter limit)
unfolding new_limiter
new_limiter-Keeps limit = record {
  gone = [];
  whole = refl;
  gone_stale = tt;
  sorted = tt;
  last_bound = tt;
}

-- Over any sequence of calls whose clock does not run backwards, a new limiter has the outcomes
-- of the specification, which keeps every accepted connection for ever and refuses a host exactly
-- if it let one in from that host less than the limit before: forgetting old entries, and the
-- reset by the last connection's time, change no outcome.
pub run-reference_run :
    (limit : ℕ) (calls : List Call)
    → Ordered 0 calls
    → run (new_limiter limit) calls ≡ reference_run limit [] calls
run-reference_run limit calls o =
    run-Keeps 0 limit [] (new_limiter limit) calls o (unfold new_limiter in refl)
      (new_limiter-Keeps limit)

-- Any two entries of one host are `limit` apart or more.
abbrev pub Spaced : ℕ → List Attempt → Type 0
Spaced limit [] = Unit {0}
Spaced limit (a ∷ log) = All (λ b. a.host ≡ b.host → a.time + limit ≤ b.time) log × Spaced limit log

Spaced-snoc :
    (limit now : ℕ) (e : Attempt) (log : List Attempt)
    → now ≤ e.time
    → recently now limit e.host log ≡ false
    → Spaced limit log
    → Spaced limit (log ++ e ∷ [])
unfolding recently
Spaced-snoc limit now e [] h r s = (tt, tt)
Spaced-snoc limit now e (a ∷ log) h r s = (
  All-append _ log (e ∷ []) s.0 ((λ same. ground (arith, str_eq_iff a.host e.host)), tt),
  Spaced-snoc limit now e log h (ground arith) s.1,
)

-- What one call lets in keeps the log spaced.
module _ (c : Clock) (h : c.checked ≤ c.added) (log : List Attempt) where
  let_in-Spaced :
      (limit : ℕ) (address : Option GoString)
      → Spaced limit log
      → Spaced limit (log ++ let_in c (reference_outcome limit log c address))
  unfolding reference_outcome
  let_in-Spaced limit none s = rw append-nil s
  let_in-Spaced limit (some address) s = elim (Option-cases (split_host_port address)) [
    | inl e ↦ rw (e, reference_outcome, append-nil) s
    | inr ((host, port), e) ↦ elim (Bool-cases (recently c.checked limit host log)) [
      | inl seen ↦ rw (e, reference_outcome, seen, append-nil) s
      | inr new ↦
          rw (e, reference_outcome, new)
            (Spaced-snoc limit c.checked (record { host = host; time = c.added }) log h new s)
    ]
  ]

log_of-Spaced_from :
    (now limit : ℕ) (log : List Attempt) (ll : Limiter) (calls : List Call)
    → Ordered now calls
    → ll.limit ≡ limit
    → Keeps now log ll
    → Spaced limit log
    → Spaced limit (log ++ log_of ll calls)
unfolding log_of
log_of-Spaced_from now limit log ll [] o e k s = rw append-nil s
log_of-Spaced_from now limit log ll ((c, address) ∷ calls) (a, b, d, o) e k s =
    let k' = Keeps-mono now c.checked log ll a k in
    let (same, next) = accept-Follows c b d log ll address k' in
    let out : (accept c address ll).1 ≡ reference_outcome limit log c address =
      rw (← e) (accept-outcome c b d log ll address k') in
    let s' : Spaced limit (log ++ let_in c (accept c address ll).1) =
      rw out (let_in-Spaced c b log limit address s) in
    rw
      (← append_assoc log (let_in c (accept c address ll).1) (log_of (accept c address ll).0 calls))
      (log_of-Spaced_from c.stamped limit (log ++ let_in c (accept c address ll).1)
        (accept c address ll).0 calls o (same ∙ e) next s')

-- However many connections arrive, two that are let in from one host are at least the limit
-- apart, while the clock does not run backwards.
pub log_of-Spaced :
    (limit : ℕ) (calls : List Call)
    → Ordered 0 calls
    → Spaced limit (log_of (new_limiter limit) calls)
log_of-Spaced limit calls o =
    log_of-Spaced_from 0 limit [] (new_limiter limit) calls o (unfold new_limiter in refl)
      (new_limiter-Keeps limit) tt
