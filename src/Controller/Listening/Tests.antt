-- ===== src/Controller/Listening/Tests.antt =====
-- Two connections from one host, an error that passes, and one that ends the loop.
use factom_p2p.Prelude.{ℕ, ◌≡◌, refl, true, false, List, [], ◌∷◌, All, arith, str_eq}
use factom_p2p.Net.{bytes, no_addresses, atoi, split_host_port}
use factom_p2p.Endpoint.{
  Endpoint, valid, new_endpoint, match_hostname, match_labels, is_alphanumeric,
}
use factom_p2p.Limiter.{
  Clock, new_limiter, accept, admit, is_in_history, has_host, clear_history, skip_old,
  add_to_history,
}
use factom_p2p.Limiter.Rate.{Ordered, Spaced}
use factom_p2p.Controller.Listening.{
  Arrival, connects, fails, remote_address, react, open_at, start_at, listen,
}
use factom_p2p.Controller.Listening.Starts.{calls_of, attempts, listen-Spaced}

abbrev clock : ℕ → Clock
clock t = record { checked = t; added = t; stamped = t }

abbrev arrivals : List (Clock × Arrival)
arrivals =
    (clock 1, connects (bytes "host:1"))
    ∷ (clock 2, connects (bytes "host:2"))
    ∷ (clock 3, fails false)
    ∷ (clock 20, connects (bytes "host:3"))
    ∷ (clock 21, fails true)
    ∷ (clock 40, connects (bytes "host:4"))
    ∷ []

abbrev host_at : List ℕ → Endpoint
host_at port = record { ip = bytes "host"; port = port }

listen-arrivals :
    listen no_addresses (new_limiter 10) arrivals
    ≡ (1, host_at (bytes "1")) ∷ (20, host_at (bytes "3")) ∷ []
unfolding listen react remote_address open_at start_at new_endpoint valid match_hostname
    match_labels is_alphanumeric atoi split_host_port accept admit is_in_history has_host
    clear_history skip_old add_to_history new_limiter str_eq
listen-arrivals = refl

ordered : Ordered 0 (calls_of arrivals)
unfolding remote_address
ordered = omega arith

listen-Spaced_example :
    All
      (λ (h : ℕ × Endpoint). valid no_addresses h.1 ≡ true)
      (listen no_addresses (new_limiter 10) arrivals)
    × Spaced 10 (attempts (listen no_addresses (new_limiter 10) arrivals))
listen-Spaced_example = listen-Spaced no_addresses 10 arrivals ordered
