-- ===== src/Seed/Tests.antt =====
-- A page of three lines, asked for twice within the time to live, and a failed request.
use mathlib.Core.List.Perm
use factom_p2p.Prelude.{◌≡◌, refl, none, some, List, [], ◌∷◌}
use factom_p2p.Net.{GoString, bytes, no_addresses, atoi, split_host_port}
use factom_p2p.Endpoint.{
  Endpoint, valid, new_endpoint, match_hostname, match_labels, is_alphanumeric,
}
use factom_p2p.Endpoint.Special.{trim_space, trim_left, is_space}
use factom_p2p.Controller.Selection.{Shuffle}
use factom_p2p.Seed.{
  Call, new_seed, retrieve, fetch, web_scanner, scan, read_line, read_parts, shuffle_cache,
}
use factom_p2p.Seed.Page.{endpoints_of}
use factom_p2p.Seed.Freshness.{Op, retrieves, shuffles, run, step, LatestAfter, retrieve-Latest}

abbrev page : List GoString
page = bytes " host:8088 " ∷ [] ∷ bytes "no endpoint" ∷ []

abbrev host : Endpoint
host = record { ip = bytes "host"; port = bytes "8088" }

endpoints_of-page :
    endpoints_of no_addresses (some (record { status_code = 200; lines = page })) ≡ host ∷ []
unfolding endpoints_of web_scanner scan read_line read_parts trim_space trim_left is_space
    split_host_port new_endpoint valid match_hostname match_labels is_alphanumeric atoi
endpoints_of-page = refl

abbrev unshuffled : Shuffle Endpoint
unshuffled = record { shuffle = λ eps. eps; permutes = λ eps. Perm.refl eps }

abbrev good : Call
good = record {
  checked = 5;
  response = some (record { status_code = 200; lines = page });
  stored = 6;
}

abbrev bad : Call
bad = record { checked = 30; response = none; stored = 31 }

abbrev again : Call
again = record good { checked = 40; stored = 41 }

abbrev ops : List Op
ops = retrieves good ∷ shuffles unshuffled ∷ retrieves bad ∷ []

-- The list is empty for the time to live once a request has failed.
empty_after_failure :
    (retrieve no_addresses again (run no_addresses (new_seed 10, []) ops).0).1 ≡ []
unfolding run step retrieve fetch web_scanner scan new_seed shuffle_cache
empty_after_failure = refl

retrieve-Latest_example : LatestAfter no_addresses 10 again (run no_addresses (new_seed 10, []) ops)
retrieve-Latest_example = retrieve-Latest no_addresses 10 ops again
