-- ===== src/Protocol/Codec.antt =====
-- The packages that turn values into bytes: encoding/json, and the generated code of
-- protocolV11.pb.go under github.com/golang/protobuf.
use factom_p2p.Prelude.{ℕ, ◌≡◌, Option, some, List}

-- Of a value that Marshal takes, Unmarshal gives back the value; `none` is an error.
pub record Codec (A : Type 0) : Type 0 where
  pub marshal : A → Option (List ℕ)
  pub unmarshal : List ℕ → Option A
  pub unmarshal-marshal : (a : A) (text : List ℕ) → marshal a ≡ some text → unmarshal text ≡ some a
