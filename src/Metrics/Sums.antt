-- ===== src/Metrics/Sums.antt =====
-- What GetInfo and runMetrics add up.
use mathlib.Core.List.{Perm, Permᴰ}
use mathlib.Core.Logic.{∥∥₁_elim}
use factom_p2p.Prelude.{
  ℕ, ◌+◌, ◌^◌, ◌≤◌, ◌≡◌, refl, sym, ap, ◌∙◌, List, [], ◌∷◌, string_eq, All, arith,
}
use factom_p2p.Net.{GoString}
use factom_p2p.Traffic.{MetricsReadWriter}
use factom_p2p.Metrics.{Floats, Rates, rates_of, PeerMetrics, no_rates, add_rates, sum_rates}

abbrev pub sum_of {ℓ} : {A : Type ℓ} → (A → ℕ) → List A → ℕ
sum_of f [] = 0
sum_of f (x ∷ xs) = f x + sum_of f xs

module _ {ℓ} {A : Type ℓ} (f : A → ℕ) where
  sum_of-permᴰ : {xs ys : List A} → Permᴰ xs ys → sum_of f xs ≡ sum_of f ys
  sum_of-permᴰ Permᴰ.nil = refl
  sum_of-permᴰ (Permᴰ.cons e h) = ground (arith, sum_of-permᴰ h, ap f e)
  sum_of-permᴰ (Permᴰ.swap e g) = ground (arith, ap f e, ap f g)
  sum_of-permᴰ (Permᴰ.trans h k) = sum_of-permᴰ h ∙ sum_of-permᴰ k

module _ {ℓ κ} {A : Type ℓ} (P : A → Type κ) where
  All-permᴰ : {xs ys : List A} → Permᴰ xs ys → All P ys → All P xs
  All-permᴰ Permᴰ.nil h = h
  All-permᴰ (Permᴰ.cons e h) k = (rw e k.0, All-permᴰ h k.1)
  All-permᴰ (Permᴰ.swap e g) k = (rw e k.1.0, (rw g k.0, k.1.1))
  All-permᴰ (Permᴰ.trans h k) l = All-permᴰ h (All-permᴰ k l)

-- The counters that the metrics of these hashes were taken from, added up.
abbrev pub counted : (GoString → MetricsReadWriter) → List GoString → MetricsReadWriter
counted count hashes = record {
  messages_written = sum_of (λ h. (count h).messages_written) hashes;
  messages_read = sum_of (λ h. (count h).messages_read) hashes;
  bytes_written = sum_of (λ h. (count h).bytes_written) hashes;
  bytes_read = sum_of (λ h. (count h).bytes_read) hashes;
}

abbrev plus : MetricsReadWriter → MetricsReadWriter → MetricsReadWriter
plus a b = record {
  messages_written = a.messages_written + b.messages_written;
  messages_read = a.messages_read + b.messages_read;
  bytes_written = a.bytes_written + b.bytes_written;
  bytes_read = a.bytes_read + b.bytes_read;
}

plus-none : (a : MetricsReadWriter) (c : GoString → MetricsReadWriter) → plus a (counted c []) ≡ a
plus-none a c = ground arith

plus-more :
    (a : MetricsReadWriter) (c : GoString → MetricsReadWriter) (h : GoString) (hs : List GoString)
    → plus (plus a (c h)) (counted c hs) ≡ plus a (counted c (h ∷ hs))
plus-more a c h hs = ground arith

-- Counts that a float64 represents.
pub record IsExact (c : MetricsReadWriter) : Type 0 where
  pub messages_written : c.messages_written ≤ 2 ^ 53
  pub messages_read : c.messages_read ≤ 2 ^ 53
  pub bytes_written : c.bytes_written ≤ 2 ^ 53
  pub bytes_read : c.bytes_read ≤ 2 ^ 53

module _ (fl : Floats) where
  abbrev pub hashes_of : List (PeerMetrics fl) → List GoString
  hashes_of [] = []
  hashes_of (m ∷ ms) = m.hash ∷ hashes_of ms

module _ (fl : Floats) (count : GoString → MetricsReadWriter) where
  abbrev pub IsSampled : PeerMetrics fl → Type 0
  IsSampled m = m.rates ≡ rates_of fl (count m.hash)

  add_rates-exact :
      (a b : MetricsReadWriter)
      → IsExact (plus a b)
      → add_rates fl (rates_of fl a) (rates_of fl b) ≡ rates_of fl (plus a b)
  unfolding rates_of
  add_rates-exact a b e =
      rw
        (
          fl.add-exact a.bytes_read b.bytes_read e.bytes_read,
          fl.add-exact a.bytes_written b.bytes_written e.bytes_written,
          fl.add-exact a.messages_read b.messages_read e.messages_read,
          fl.add-exact a.messages_written b.messages_written e.messages_written,
        )
        refl

  sum_rates-exact :
      (s : MetricsReadWriter) (ms : List (PeerMetrics fl))
      → All IsSampled ms
      → IsExact (plus s (counted count (hashes_of fl ms)))
      → sum_rates fl (rates_of fl s) ms ≡ rates_of fl (plus s (counted count (hashes_of fl ms)))
  unfolding sum_rates
  sum_rates-exact s [] h e = rw (plus-none s count) refl
  sum_rates-exact s (m ∷ ms) (i, h) e =
      let c = count m.hash in
      let first : IsExact (plus s c) = record {
        messages_written = omega (arith, e.messages_written);
        messages_read = omega (arith, e.messages_read);
        bytes_written = omega (arith, e.bytes_written);
        bytes_read = omega (arith, e.bytes_read);
      } in
      let rest =
        sum_rates-exact (plus s c) ms h (rw (plus-more s count m.hash (hashes_of fl ms)) e) in
      rw (i, add_rates-exact s c first)
        (rest ∙ rw (plus-more s count m.hash (hashes_of fl ms)) refl)

  hashes_of-permᴰ :
      (f : GoString → ℕ) {ms ns : List (PeerMetrics fl)}
      → Permᴰ ms ns
      → sum_of f (hashes_of fl ms) ≡ sum_of f (hashes_of fl ns)
  hashes_of-permᴰ f {ms = ms} {ns = ns} h =
      sum_hashes f ms ∙ sum_of-permᴰ (λ (m : PeerMetrics fl). f m.hash) h ∙ sym (sum_hashes f ns)
    where
      sum_hashes :
          (g : GoString → ℕ) (ls : List (PeerMetrics fl))
          → sum_of g (hashes_of fl ls) ≡ sum_of (λ (m : PeerMetrics fl). g m.hash) ls
      sum_hashes g [] = refl
      sum_hashes g (m ∷ ls) = ap (λ n. g m.hash + n) (sum_hashes g ls)

  counted-permᴰ :
      {ms ns : List (PeerMetrics fl)}
      → Permᴰ ms ns
      → counted count (hashes_of fl ms) ≡ counted count (hashes_of fl ns)
  counted-permᴰ h =
      rw
        (
          hashes_of-permᴰ (λ x. (count x).messages_written) h,
          hashes_of-permᴰ (λ x. (count x).messages_read) h,
          hashes_of-permᴰ (λ x. (count x).bytes_written) h,
          hashes_of-permᴰ (λ x. (count x).bytes_read) h,
        )
        refl

  plus_nothing : (a : MetricsReadWriter) → plus (counted count []) a ≡ a
  plus_nothing a = ground arith

  -- In whichever order metrics are added up.
  pub sum_rates-permᴰ :
      (ms ns : List (PeerMetrics fl))
      → Permᴰ ms ns
      → All IsSampled ns
      → IsExact (counted count (hashes_of fl ns))
      → sum_rates fl (no_rates fl) ms ≡ rates_of fl (counted count (hashes_of fl ns))
  unfolding rates_of
  sum_rates-permᴰ ms ns p h e =
      let same = counted-permᴰ p in
      let zero = plus_nothing (counted count (hashes_of fl ms)) in
      sum_rates-exact (counted count []) ms (All-permᴰ IsSampled p h) (rw (zero, same) e)
      ∙ ap (rates_of fl) (zero ∙ same)

  -- A field of a sum over a list in another order.
  pub sum_rates-perm :
      (field : Rates fl → fl.F) (ms ns : List (PeerMetrics fl))
      → Perm ms ns
      → All IsSampled ns
      → IsExact (counted count (hashes_of fl ns))
      → field (sum_rates fl (no_rates fl) ms)
        ≡ field (rates_of fl (counted count (hashes_of fl ns)))
  sum_rates-perm field ms ns p h e =
      ∥∥₁_elim p (fl.f_set _ _) (λ d. ap field (sum_rates-permᴰ ms ns d h e))
