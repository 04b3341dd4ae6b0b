-- ===== src/Endpoint/Special.antt =====
-- `parseSpecial` of util.go: endpoints separated by commas.
use factom_p2p.Prelude.{
  ℕ, ◌||◌, ◌&&◌, Bool, false, Option, none, some, List, [], ◌∷◌, ◌++◌, leb, ◌==◌, ◌≡◌, ◌↔◌, ◌∙◌,
  refl, ap, All, arith, if◌then◌else◌,
}
use mathlib.Core.List.{reverse}
use factom_p2p.Net.{GoString, IpParser, has_byte}
use factom_p2p.Endpoint.{Endpoint, parse_endpoint}

-- One more byte in front of the first text.
abbrev extend : ℕ → List GoString → List GoString
extend c [] = (c ∷ []) ∷ []
extend c (item ∷ items) = (c ∷ item) ∷ items

-- strings.Split by one byte: the texts between the separators, one at least.
unfoldable pub split_by : ℕ → GoString → List GoString
split_by sep [] = [] ∷ []
split_by sep (c ∷ cs) = let rest = split_by sep cs in if c == sep then [] ∷ rest else extend c rest

-- The white space of ASCII; strings.TrimSpace knows more of Unicode's.
unfoldable pub is_space : ℕ → Bool
is_space c = c == 32 || (leb 9 c && leb c 13)

unfoldable pub trim_left : GoString → GoString
unfolding is_space
trim_left [] = []
trim_left (c ∷ cs) = if is_space c then trim_left cs else c ∷ cs

unfoldable pub trim_space : GoString → GoString
unfolding trim_left
trim_space s = reverse (trim_left (reverse (trim_left s)))

-- `none` is the error of the first item that is no endpoint.
unfoldable pub parse_items : IpParser → List GoString → Option (List Endpoint)
parse_items net [] = some []
parse_items net (item ∷ items) =
    let rest = parse_items net items in
    elim (parse_endpoint net (trim_space item)) [
      | none ↦ none
      | some ep ↦ (elim rest [ none ↦ none | some eps ↦ some (ep ∷ eps) ])
    ]

unfoldable pub parse_special : IpParser → GoString → Option (List Endpoint)
unfolding parse_items
parse_special net raw = parse_items net (split_by b',' raw)

split_by-has_byte : (sep : ℕ) (s : GoString) → has_byte sep s ≡ false → split_by sep s ≡ s ∷ []
unfolding split_by
split_by-has_byte sep [] h = refl
split_by-has_byte sep (c ∷ cs) h = ground (arith, split_by-has_byte sep cs)

split_by-append :
    (sep : ℕ) (s t : GoString)
    → has_byte sep s ≡ false
    → split_by sep (s ++ sep ∷ t) ≡ s ∷ split_by sep t
unfolding split_by
split_by-append sep [] t h = ground arith
split_by-append sep (c ∷ cs) t h = ground (arith, split_by-append sep cs t)

-- The texts with commas between them.
abbrev pub join : GoString → List GoString → GoString
join item [] = item
join item (next ∷ items) = item ++ b',' ∷ join next items

split_by-join :
    (item : GoString) (items : List GoString)
    → has_byte b',' item ≡ false
    → All (λ i. has_byte b',' i ≡ false) items
    → split_by b',' (join item items) ≡ item ∷ items
split_by-join item [] h k = split_by-has_byte b',' item h
split_by-join item (next ∷ items) h k =
    split_by-append b',' item (join next items) h
    ∙ ap (λ l. item ∷ l) (split_by-join next items k.0 k.1)

-- The endpoints that the texts parse to, all of them.
abbrev pub ParsesTo : IpParser → List GoString → List Endpoint → Type 0
ParsesTo net [] [] = Unit {0}
ParsesTo net (i ∷ items) (ep ∷ eps) =
    (parse_endpoint net (trim_space i) ≡ some ep) × ParsesTo net items eps
ParsesTo net _ _ = ⊥

parse_items-ParsesTo :
    (net : IpParser) (items : List GoString) (eps : List Endpoint)
    → parse_items net items ≡ some eps
    → ParsesTo net items eps
unfolding parse_items
parse_items-ParsesTo net [] [] h = tt
parse_items-ParsesTo net [] (ep ∷ eps) h = cc
parse_items-ParsesTo net (i ∷ items) [] h = ground arith
parse_items-ParsesTo net (i ∷ items) (ep ∷ eps) h =
    ground (arith, parse_items-ParsesTo net items eps)

ParsesTo-parse_items :
    (net : IpParser) (items : List GoString) (eps : List Endpoint)
    → ParsesTo net items eps
    → parse_items net items ≡ some eps
unfolding parse_items
ParsesTo-parse_items net [] [] h = refl
ParsesTo-parse_items net [] (ep ∷ eps) h = absurd h
ParsesTo-parse_items net (i ∷ items) [] h = absurd h
ParsesTo-parse_items net (i ∷ items) (ep ∷ eps) h =
    ground (arith, ParsesTo-parse_items net items eps h.1, h.0)

-- Of texts without commas, joined by commas, parseSpecial returns the endpoints that they parse
-- to once white space is trimmed off, in their order; it fails as soon as one of them is no
-- endpoint, the empty text included.
pub parse_special_iff :
    (net : IpParser) (item : GoString) (items : List GoString) (eps : List Endpoint)
    → has_byte b',' item ≡ false
    → All (λ i. has_byte b',' i ≡ false) items
    → (parse_special net (join item items) ≡ some eps) ↔ ParsesTo net (item ∷ items) eps
unfolding parse_special
parse_special_iff net item items eps h k =
    rw (split_by-join item items h k)
      (parse_items-ParsesTo net (item ∷ items) eps, ParsesTo-parse_items net (item ∷ items) eps)
