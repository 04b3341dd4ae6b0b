-- ===== src/Protocol/V11/Framing.antt =====
-- Messages behind their length.
use factom_p2p.Prelude.{
  ℕ, ◌+◌, ◌-◌, ◌%◌, ◌^◌, ◌≤◌, ◌<◌, ◌≡◌, refl, ap, ◌∙◌, some, List, [], ◌∷◌, ◌++◌, length, take,
  drop, length-append, arith, ltb, false, true,
}
use mathlib.Core.List.{append_assoc}
use factom_p2p.NetworkId.{big_endian_uint32}
use factom_p2p.Protocol.Codec.{Codec}
use factom_p2p.Protocol.V11.{
  Conn, ok, err, too_large, read_check, write_check, put_big_endian, read_message, write_message,
  v11_max_parcel_size,
}

big_endian-put : (v : ℕ) → v < 2 ^ 32 → big_endian_uint32 (put_big_endian v) ≡ v
unfolding big_endian_uint32 put_big_endian
big_endian-put v h = omega arith

-- The bytes of a message on the connection.
abbrev pub frame : List ℕ → List ℕ
frame bs = put_big_endian (length bs) ++ bs

take-append : (xs ys : List ℕ) → take (length xs) (xs ++ ys) ≡ xs
take-append [] ys = refl
take-append (x ∷ xs) ys = ap (λ l. x ∷ l) (take-append xs ys)

drop-append : (xs ys : List ℕ) → drop (length xs) (xs ++ ys) ≡ ys
drop-append [] ys = refl
drop-append (x ∷ xs) ys = drop-append xs ys

pub read_check-append :
    (xs ys : List ℕ) (c : Conn)
    → c.input ≡ xs ++ ys
    → read_check (length xs) c ≡ (ok xs, record c { input = ys })
unfolding read_check
read_check-append xs ys c h =
    rw h (ground (arith, take-append xs ys, drop-append xs ys, length-append xs ys))

-- Four bytes of a length come off the input.
read_check-put :
    (v : ℕ) (ys : List ℕ) (c : Conn)
    → c.input ≡ put_big_endian v ++ ys
    → read_check 4 c ≡ (ok (put_big_endian v), record c { input = ys })
unfolding put_big_endian
read_check-put v ys c h = read_check-append (put_big_endian v) ys c h

pub write_check-room :
    (bs : List ℕ) (c : Conn)
    → length bs ≤ c.accepts
    → write_check bs c
      ≡ (ok tt, record c { output = c.output ++ bs; accepts = c.accepts - length bs })
unfolding write_check
write_check-room bs c h = ground arith

length-put : (v : ℕ) → length (put_big_endian v) ≡ 4
unfolding put_big_endian
length-put v = refl

module _ {A : Type 0} (proto : Codec A) where
  -- With room for it, a message is written as its frame.
  pub write_message_lem :
      (a : A) (bs : List ℕ) (c : Conn)
      → proto.marshal a ≡ some bs
      → length bs ≤ v11_max_parcel_size
      → length bs + 4 ≤ c.accepts
      → write_message proto a c
        ≡ (ok tt, record c { output = c.output ++ frame bs; accepts = c.accepts - (length bs + 4) })
  unfolding write_message
  write_message_lem a bs c m s r =
      let size : length bs % 2 ^ 32 ≡ length bs = omega arith in
      let c1 : Conn = record c {
        output = c.output ++ put_big_endian (length bs);
        accepts = c.accepts - 4;
      } in
      let e1 : write_check (put_big_endian (length bs)) c ≡ (ok tt, c1) =
        rw (← length-put (length bs)) (
          write_check-room (put_big_endian (length bs)) c
            (omega (arith, length-put (length bs)))) in
      let e2 : write_check bs c1
          ≡ (ok tt, record c1 { output = c1.output ++ bs; accepts = c1.accepts - length bs }) =
        write_check-room bs c1 (omega arith) in
      let small : ltb v11_max_parcel_size (length bs) ≡ false = ground arith in
      rw (m, small, size, e1, e2)
        (ground (arith, append_assoc c.output (put_big_endian (length bs)) bs))

  pub read_message_lem :
      (a : A) (bs rest : List ℕ) (c : Conn)
      → proto.unmarshal bs ≡ some a
      → length bs ≤ v11_max_parcel_size
      → c.input ≡ frame bs ++ rest
      → read_message proto c ≡ (ok a, record c { input = rest })
  unfolding read_message
  read_message_lem a bs rest c m s i =
      let e1 =
        read_check-put (length bs) (bs ++ rest) c
          (i ∙ append_assoc (put_big_endian (length bs)) bs rest) in
      let size : big_endian_uint32 (put_big_endian (length bs)) ≡ length bs =
        big_endian-put (length bs) (omega arith) in
      let e2 = read_check-append bs rest (record c { input = bs ++ rest }) refl in
      let small : ltb v11_max_parcel_size (length bs) ≡ false = ground arith in
      rw (e1, size, small, e2, m) refl

  -- A message that is too large is not written at all, and one that is announced as too large is
  -- not read further than its length.
  pub too_large_stops :
      (a : A) (bs rest : List ℕ) (size : ℕ) (c : Conn)
      → proto.marshal a ≡ some bs
      → v11_max_parcel_size < length bs
      → v11_max_parcel_size < size
      → size < 2 ^ 32
      → c.input ≡ put_big_endian size ++ rest
      → (write_message proto a c ≡ (err too_large, c))
        × (read_message proto c ≡ (err too_large, record c { input = rest }))
  unfolding write_message read_message
  too_large_stops a bs rest size c m l s b i =
      let large : ltb v11_max_parcel_size (length bs) ≡ true = ground arith in
      let announced : ltb v11_max_parcel_size size ≡ true = ground arith in
      (rw (m, large) refl, rw (read_check-put size rest c i, big_endian-put size b, announced) refl)
