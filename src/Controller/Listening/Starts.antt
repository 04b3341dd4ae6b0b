-- ===== src/Controller/Listening/Starts.antt =====
-- Which handshakes the listening loop starts.
use factom_p2p.Prelude.{
  ℕ, ◌+◌, ◌≤◌, ◌≡◌, ◌⊎◌, refl, true, false, Bool-cases, Option, Option-cases, none, some, List, [],
  ◌∷◌, ◌++◌, All, inl, inr,
}
use factom_p2p.Net.{GoString, IpParser, split_host_port}
use factom_p2p.Endpoint.{Endpoint, valid, new_endpoint}
use factom_p2p.Limiter.{
  Attempt, Limiter, Clock, Outcome, accepted, listen_failed, bad_address, rate_exceeded,
  new_limiter, accept, admit, is_in_history,
}
use factom_p2p.Limiter.Rate.{Call, Ordered, Spaced, log_of, let_in, log_of-Spaced}
use factom_p2p.Controller.Listening.{
  Arrival, connects, fails, remote_address, react, open_at, start_at, after_reaction, listen,
}

-- The calls of Accept that the loop would make if no error were permanent.
abbrev pub calls_of : List (Clock × Arrival) → List Call
calls_of [] = []
calls_of ((c, a) ∷ arrivals) = (c, remote_address a) ∷ calls_of arrivals

-- The handshakes by the IP of the other side.
abbrev pub attempts : List (ℕ × Endpoint) → List Attempt
attempts [] = []
attempts ((t, ep) ∷ hs) = record { host = ep.ip; time = t } ∷ attempts hs

abbrev Sub : List Attempt → List Attempt → Type 0
Sub [] log = Unit {0}
Sub (h ∷ hs) [] = ⊥
Sub (h ∷ hs) (a ∷ log) = ((h ≡ a) × Sub hs log) ⊎ Sub (h ∷ hs) log

Sub-skip : (hs : List Attempt) (a : Attempt) (log : List Attempt) → Sub hs log → Sub hs (a ∷ log)
Sub-skip [] a log s = tt
Sub-skip (h ∷ hs) a log s = inr s

Sub-All : (P : Attempt → Type 0) (hs log : List Attempt) → Sub hs log → All P log → All P hs
Sub-All P [] log s k = tt
Sub-All P (h ∷ hs) [] s k = absurd s
Sub-All P (h ∷ hs) (a ∷ log) (inl (e, s)) k = (rw e k.0, Sub-All P hs log s k.1)
Sub-All P (h ∷ hs) (a ∷ log) (inr s) k = Sub-All P (h ∷ hs) log s k.1

Sub-Spaced : (limit : ℕ) (hs log : List Attempt) → Sub hs log → Spaced limit log → Spaced limit hs
Sub-Spaced limit [] log s k = tt
Sub-Spaced limit (h ∷ hs) [] s k = absurd s
Sub-Spaced limit (h ∷ hs) (a ∷ log) (inl (e, s)) k = (
  rw e (Sub-All (λ b. a.host ≡ b.host → a.time + limit ≤ b.time) hs log s k.0),
  Sub-Spaced limit hs log s k.1,
)
Sub-Spaced limit (h ∷ hs) (a ∷ log) (inr s) k = Sub-Spaced limit (h ∷ hs) log s k.1

-- An accepted host is the one of the address.
abbrev Told : Option GoString → Outcome → Type 0
Told (some address) (accepted host) =
    (port : GoString) × (split_host_port address ≡ some (host, port))
Told none (accepted host) = ⊥
Told o _ = Unit {0}

admit-Told :
    (c : Clock) (address host port : GoString) (ll : Limiter)
    → split_host_port address ≡ some (host, port)
    → Told (some address) (admit c host ll).1
unfolding admit
admit-Told c address host port ll e = elim (Bool-cases (is_in_history c.checked host ll).1) [
  | inl seen ↦ rw seen tt
  | inr new ↦ rw new (port, e)
]

accept_refused :
    (c : Clock) (address : GoString) (ll : Limiter)
    → split_host_port address ≡ none
    → (accept c (some address) ll).1 ≡ bad_address
unfolding accept
accept_refused c address ll e = rw (e, accept) refl

accept_admitted :
    (c : Clock) (address host port : GoString) (ll : Limiter)
    → split_host_port address ≡ some (host, port)
    → (accept c (some address) ll).1 ≡ (admit c host ll).1
unfolding accept
accept_admitted c address host port ll e = rw (e, accept) refl

accept-Told : (c : Clock) (o : Option GoString) (ll : Limiter) → Told o (accept c o ll).1
unfolding accept
accept-Told c none ll = tt
accept-Told c (some address) ll = elim (Option-cases (split_host_port address)) [
  | inl e ↦ rw (accept_refused c address ll e) tt
  | inr ((host, port), e) ↦
      rw (accept_admitted c address host port ll e) (admit-Told c address host port ll e)
]

module _ (net : IpParser) where
  start_at-Sub :
      (c : Clock) (host port : GoString) (rest : List (ℕ × Endpoint)) (log : List Attempt)
      → Sub (attempts rest) log
      → Sub
          (attempts (after_reaction net c.added (start_at net (new_endpoint net host port)) rest))
          (record { host = host; time = c.added } ∷ log)
  unfolding start_at new_endpoint
  start_at-Sub c host port rest log s =
      elim (Bool-cases (valid net (record { ip = host; port = port }))) [
        | inl h ↦ rw h (inl (refl, s))
        | inr h ↦ rw h (Sub-skip (attempts rest) (record { host = host; time = c.added }) log s)
      ]

  react-Sub :
      (c : Clock) (a : Arrival) (o : Outcome) (rest : List (ℕ × Endpoint)) (log : List Attempt)
      → Told (remote_address a) o
      → Sub (attempts rest) log
      → Sub (attempts (after_reaction net c.added (react net a o) rest)) (let_in c o ++ log)
  unfolding react open_at remote_address
  react-Sub c (connects address) (accepted host) rest log (port, e) s =
      rw e (start_at-Sub c host port rest log s)
  react-Sub c (connects address) listen_failed rest log k s = s
  react-Sub c (connects address) bad_address rest log k s = s
  react-Sub c (connects address) (rate_exceeded host) rest log k s = s
  react-Sub c (fails true) (accepted host) rest log k s = tt
  react-Sub c (fails false) (accepted host) rest log k s = absurd k
  react-Sub c (fails true) listen_failed rest log k s = tt
  react-Sub c (fails false) listen_failed rest log k s = s
  react-Sub c (fails true) bad_address rest log k s = tt
  react-Sub c (fails false) bad_address rest log k s = s
  react-Sub c (fails true) (rate_exceeded host) rest log k s = tt
  react-Sub c (fails false) (rate_exceeded host) rest log k s = s

  listen-Sub :
      (ll : Limiter) (arrivals : List (Clock × Arrival))
      → Sub (attempts (listen net ll arrivals)) (log_of ll (calls_of arrivals))
  unfolding listen log_of
  listen-Sub ll [] = tt
  listen-Sub ll ((c, a) ∷ arrivals) =
      let (ll', o) = accept c (remote_address a) ll in
      react-Sub c a o (listen net ll' arrivals) (log_of ll' (calls_of arrivals))
        (accept-Told c (remote_address a) ll) (listen-Sub ll' arrivals)

  abbrev Valid : List (ℕ × Endpoint) → Type 0
  Valid hs = All (λ (h : ℕ × Endpoint). valid net h.1 ≡ true) hs

  start_at-Valid :
      (now : ℕ) (host port : GoString) (rest : List (ℕ × Endpoint))
      → Valid rest
      → Valid (after_reaction net now (start_at net (new_endpoint net host port)) rest)
  unfolding start_at new_endpoint
  start_at-Valid now host port rest v =
      elim (Bool-cases (valid net (record { ip = host; port = port }))) [
        | inl h ↦ rw h (h, v)
        | inr h ↦ rw h v
      ]

  open_at-Valid :
      (now : ℕ) (o : Option (GoString × GoString)) (rest : List (ℕ × Endpoint))
      → Valid rest
      → Valid (after_reaction net now (open_at net o) rest)
  unfolding open_at
  open_at-Valid now none rest v = v
  open_at-Valid now (some (host, port)) rest v = start_at-Valid now host port rest v

  react-Valid :
      (now : ℕ) (a : Arrival) (o : Outcome) (rest : List (ℕ × Endpoint))
      → Valid rest
      → Valid (after_reaction net now (react net a o) rest)
  unfolding react
  react-Valid now (connects address) (accepted host) rest v =
      open_at-Valid now (split_host_port address) rest v
  react-Valid now (connects address) listen_failed rest v = v
  react-Valid now (connects address) bad_address rest v = v
  react-Valid now (connects address) (rate_exceeded host) rest v = v
  react-Valid now (fails true) o rest v = tt
  react-Valid now (fails false) o rest v = v

  listen-Valid : (ll : Limiter) (arrivals : List (Clock × Arrival)) → Valid (listen net ll arrivals)
  unfolding listen
  listen-Valid ll [] = tt
  listen-Valid ll ((c, a) ∷ arrivals) =
      let (ll', o) = accept c (remote_address a) ll in
      react-Valid c.added a o (listen net ll' arrivals) (listen-Valid ll' arrivals)

  -- However many connections arrive, the loop starts handshakes with valid endpoints only, and two
  -- that it starts with one IP are for connections that were let in the listening limit or more
  -- apart, while the clock does not run backwards.
  pub listen-Spaced :
      (limit : ℕ) (arrivals : List (Clock × Arrival))
      → Ordered 0 (calls_of arrivals)
      → let hs = listen net (new_limiter limit) arrivals in
        All (λ (h : ℕ × Endpoint). valid net h.1 ≡ true) hs × Spaced limit (attempts hs)
  listen-Spaced limit arrivals o = (
    listen-Valid (new_limiter limit) arrivals,
    Sub-Spaced limit (attempts (listen net (new_limiter limit) arrivals))
        (log_of (new_limiter limit) (calls_of arrivals)) (listen-Sub (new_limiter limit) arrivals)
        (log_of-Spaced limit (calls_of arrivals) o),
  )
