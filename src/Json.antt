-- ===== src/Json.antt =====
-- encoding/json, which the wire formats use for their bodies: `marshal` is json.Marshal (`none` for
-- an error), and `unmarshal` is json.Unmarshal into a fresh value. The functions that print and
-- parse a body take such a pair; what they need of it is a hypothesis about the value at hand, since
-- encoding/json does not give back every Go value (a string with invalid UTF-8 comes back changed).
use edge_grid.Prelude.{Text, Option}

pub record Codec {ℓ} (A : Type ℓ) : Type ℓ where
  pub marshal : A → Option Text
  pub unmarshal : Text → Option A
