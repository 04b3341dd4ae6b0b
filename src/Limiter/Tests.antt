-- ===== src/Limiter/Tests.antt =====
-- The limiter on concrete calls.
use factom_p2p.Prelude.{◌≡◌, refl, some, none, List, [], ◌∷◌, arith, str_eq}
use factom_p2p.Net.{GoString, split_host_port}
use factom_p2p.Limiter.{
  accepted, bad_address, listen_failed, rate_exceeded, new_limiter, accept, admit, is_in_history,
  has_host, clear_history, skip_old, add_to_history,
}
use factom_p2p.Limiter.Rate.{Call, run, reference_run, run-reference_run}

-- "a" and "b", and their addresses "a:1" and "b:2"
abbrev host_a : GoString
host_a = b'a' ∷ []

abbrev address_a : GoString
address_a = b'a' ∷ b':' ∷ b'1' ∷ []

abbrev address_b : GoString
address_b = b'b' ∷ b':' ∷ b'2' ∷ []

abbrev calls : List Call
calls =
    (record { checked = 10; added = 11; stamped = 12 }, some address_a)
    ∷ (record { checked = 13; added = 13; stamped = 13 }, some address_b)
    ∷ (record { checked = 15; added = 15; stamped = 15 }, some address_a)
    ∷ (record { checked = 16; added = 16; stamped = 16 }, none)
    ∷ (record { checked = 17; added = 17; stamped = 17 }, some host_a)
    ∷ (record { checked = 21; added = 22; stamped = 22 }, some address_a)
    ∷ []

run-calls :
    run (new_limiter 10) calls
    ≡ accepted host_a
      ∷ accepted (b'b' ∷ [])
      ∷ rate_exceeded host_a
      ∷ listen_failed
      ∷ bad_address
      ∷ accepted host_a
      ∷ []
unfolding run accept admit is_in_history has_host clear_history skip_old add_to_history new_limiter
    split_host_port str_eq
run-calls = refl

run-reference_run_example : run (new_limiter 10) calls ≡ reference_run 10 [] calls
run-reference_run_example = run-reference_run 10 calls (omega arith)
