-- ===== src/Seed.antt =====
-- seed.go, with WebScanner of util.go: the list of endpoints that a page of the web holds, kept for
-- a time. What http.Get returns and every reading of the clock is an argument.
pub mod Page
pub mod Freshness
mod Tests
use factom_p2p.Prelude.{
  ℕ, ◌+◌, Bool, true, false, not, Option, none, some, List, [], ◌∷◌, ◌++◌, length, leb, ◌==◌,
  if◌then◌else◌,
}
use factom_p2p.Net.{GoString, IpParser, is_empty, split_host_port}
use factom_p2p.Endpoint.{Endpoint, new_endpoint}
use factom_p2p.Endpoint.Special.{trim_space}
use factom_p2p.Controller.Selection.{Shuffle}

-- What http.Get returns without an error: the status and the lines of the body.
pub record Response : Type 0 where
  pub status_code : ℕ
  pub lines : List GoString

-- f on every line
unfoldable pub scan {ℓ} : {S : Type ℓ} → (GoString → S → S) → List GoString → S → S
scan f [] s = s
scan f (line ∷ lines) s = scan f lines (f line s)

-- WebScanner, with a closure that changes `s`, and whether there was an error
unfoldable pub web_scanner {ℓ} : {S : Type ℓ} → (GoString → S → S) → Option Response → S → S × Bool
unfolding scan
web_scanner f none s = (s, true)
web_scanner f (some resp) s =
    if not (resp.status_code == 200) then (s, true) else (scan f resp.lines s, false)

pub record Seed : Type 0 where
  pub cache : Option (List Endpoint)
  pub cache_ttl : ℕ
  pub cache_time : ℕ

-- The page that the URL names is what the responses of the calls say.
unfoldable pub new_seed : ℕ → Seed
new_seed cache_ttl = record { cache = none; cache_ttl = cache_ttl; cache_time = 0 }

-- A call of retrieve: the time at which it looks at the cache, what the request returns if it makes
-- one, and the time after it.
pub record Call : Type 0 where
  pub checked : ℕ
  pub response : Option Response
  pub stored : ℕ

-- The end of the closure: `ep` or the error of NewEndpoint.
abbrev pub append_endpoint : Option Endpoint → List Endpoint → List Endpoint
append_endpoint none eps = eps
append_endpoint (some ep) eps = eps ++ ep ∷ []

module _ (net : IpParser) where
  -- `net.SplitHostPort(line)` and what follows
  unfoldable pub read_parts : Option (GoString × GoString) → List Endpoint → List Endpoint
  read_parts none eps = eps
  read_parts (some (host, port)) eps = append_endpoint (new_endpoint net host port) eps

  -- The closure of retrieve.
  unfoldable pub read_line : GoString → List Endpoint → List Endpoint
  unfolding read_parts
  read_line line eps =
      let line' = trim_space line in
      if is_empty line' then eps else read_parts (split_host_port line') eps

  unfoldable pub fetch : Call → Seed → Seed × List Endpoint × List Call
  unfolding web_scanner read_line
  fetch c s =
      let (eps, failed) = web_scanner read_line c.response [] in
      (record s { cache_time = c.stored; cache = some eps }, eps, c ∷ [])

  abbrev pub retrieve_cached :
      Option (List Endpoint) → Call → Seed → Seed × List Endpoint × List Call
  retrieve_cached none c s = fetch c s
  retrieve_cached (some eps) c s =
      if leb c.checked (s.cache_time + s.cache_ttl) then (s, eps, []) else fetch c s

  -- The list, and the request that is made for it, if any;
  -- `time.Since(s.cacheTime) <= s.cacheTTL` is written out.
  unfoldable pub retrieve : Call → Seed → Seed × List Endpoint × List Call
  unfolding fetch
  retrieve c s = retrieve_cached s.cache c s

  abbrev length_of : Option (List Endpoint) → ℕ
  length_of none = 0
  length_of (some eps) = length eps

  unfoldable pub size : Call → Seed → Seed × ℕ
  unfolding retrieve
  size c s = let (s', eps, requests) = retrieve c s in (s', length_of s'.cache)

  -- catReplenish shuffles the list that retrieve returned, which is the cache itself.
  unfoldable pub shuffle_cache : Shuffle Endpoint → Seed → Seed
  shuffle_cache sh s = record s {
    cache = elim s.cache [ none ↦ none | some eps ↦ some (sh.shuffle eps) ];
  }
