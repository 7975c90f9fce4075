-- ===== src/Discovery/Hello.antt =====
-- internal/discovery/hello.go, and Server.handle of listener.go.
pub mod Exchange
use edge_grid.Prelude.{
  ℕ, ◌%◌, ◌^◌, Bool, true, false, not, Text, List, [], ◌∷◌, ◌++◌, length, Option, none, some, ltb,
  is_empty, if◌then◌else◌,
}
use edge_grid.Prelude.Results.{Result, ok, err, or_fail}
use edge_grid.Proc.{Proc, pure, lift, refuse_when, ◌>>=◌, ◌>>◌}
use edge_grid.Net.{Conn, read_full, write, put_u32, u32}
use edge_grid.Json.{Codec}

-- The strings of IntentType; a peer can send any other.
pub data IntentType : Type 0 where
  intent_hello intent_blob intent_task intent_result : IntentType
  intent_other : Text → IntentType

-- 64 * 1024
abbrev pub max_hello_size : ℕ
max_hello_size = 65_536

pub record Hello : Type 0 where
  pub node_id : Text
  pub intent : IntentType

pub data HelloError : Type 0 where
  encode write_length write_body read_length read_body decode set_deadline : HelloError
  too_long : ℕ → HelloError

module _ (json : Codec Hello) where
  unfoldable pub write_hello : Hello → Proc Conn HelloError (Unit {0})
  write_hello h = do
    body ← lift (or_fail (json.marshal h) encode)
    write (put_u32 (length body % 2 ^ 32)) write_length
    write body write_body

  unfoldable pub read_hello : Proc Conn HelloError Hello
  read_hello = do
    prefix ← read_full 4 read_length
    refuse_when (ltb max_hello_size (u32 prefix)) (too_long (u32 prefix))
    body ← read_full (u32 prefix) read_body
    lift (or_fail (json.unmarshal body) decode)

  -- `deadline` says whether the connection takes its deadline.
  unfoldable pub exchange_as_dialer : Bool → Hello → Proc Conn HelloError Hello
  exchange_as_dialer deadline self = do
    refuse_when (not deadline) set_deadline
    write_hello self
    read_hello

  unfoldable pub exchange_as_listener : Bool → Hello → Proc Conn HelloError Hello
  exchange_as_listener deadline self = do
    refuse_when (not deadline) set_deadline
    peer ← read_hello
    write_hello self
    pure peer
