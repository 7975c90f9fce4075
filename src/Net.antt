-- ===== src/Net.antt =====
-- A connection as io.Reader and io.Writer see it, and encoding/binary's big-endian numbers.
-- The peer and the network are the environment: `incoming` is what arrives before the connection
-- closes or its deadline passes, and `writes` says how the next calls of Write turn out.
pub mod Laws
use edge_grid.Prelude.{
  ℕ, ◌+◌, ◌*◌, ◌/◌, ◌%◌, ◌^◌, Text, List, [], ◌∷◌, ◌++◌, take, drop, length, leb, if◌then◌else◌,
}
use edge_grid.Prelude.Results.{ok, err}
use edge_grid.Proc.{Proc}

-- A Write that fails has sent some first bytes.
pub data WriteOutcome : Type 0 where
  sent : WriteOutcome
  cut : ℕ → WriteOutcome

pub record Conn : Type 0 where
  pub incoming : Text
  pub outgoing : Text
  pub writes : List WriteOutcome

-- A connection whose peer sends `s`, and where every Write succeeds.
abbrev pub receiving : Text → Conn
receiving s = record { incoming = s; outgoing = []; writes = [] }

-- io.ReadFull(r, buf) with a buffer of n bytes; `e` is the error that the caller makes of a failure.
-- A failing call has taken what there was.
unfoldable pub read_full : {E : Type 0} → ℕ → E → Proc Conn E Text
read_full n e c =
    if leb n (length c.incoming)
    then (ok (take n c.incoming), record c { incoming = drop n c.incoming })
    else (err e, record c { incoming = [] })

write_as : {E : Type 0} → List WriteOutcome → Text → E → Proc Conn E (Unit {0})
write_as [] s e c = (ok tt, record c { outgoing = c.outgoing ++ s })
write_as (sent ∷ ws) s e c = (ok tt, record c { outgoing = c.outgoing ++ s; writes = ws })
write_as (cut n ∷ ws) s e c = (err e, record c { outgoing = c.outgoing ++ take n s; writes = ws })

-- w.Write(s)
unfoldable pub write : {E : Type 0} → Text → E → Proc Conn E (Unit {0})
unfolding write_as
write s e c = write_as c.writes s e c

-- binary.BigEndian.PutUint32 and PutUint16, on a number that the caller has converted.
unfoldable pub put_u32 : ℕ → Text
put_u32 n = (n / 2 ^ 24 % 256) ∷ (n / 2 ^ 16 % 256) ∷ (n / 2 ^ 8 % 256) ∷ (n % 256) ∷ []

unfoldable pub put_u16 : ℕ → Text
put_u16 n = (n / 2 ^ 8 % 256) ∷ (n % 256) ∷ []

-- `hdr[0]`, on a header that is not empty.
abbrev pub first : Text → ℕ
first [] = 0
first (b ∷ s) = b

-- binary.BigEndian.Uint32 and Uint16; the source always hands over 4 and 2 bytes.
unfoldable pub u32 : Text → ℕ
u32 (a ∷ b ∷ c ∷ d ∷ s) = a * 2 ^ 24 + b * 2 ^ 16 + c * 2 ^ 8 + d
u32 s = 0

unfoldable pub u16 : Text → ℕ
u16 (a ∷ b ∷ s) = a * 2 ^ 8 + b
u16 s = 0
