-- ===== src/Net/Laws.antt =====
-- Laws of reading, writing and big-endian numbers.
use edge_grid.Prelude.{
  ℕ, ◌%◌, ◌^◌, ◌<◌, ◌≡◌, refl, Text, List, [], ◌∷◌, ◌++◌, length, arith, length-append, take-append,
  drop-append, take-append-drop, length-take,
}
use edge_grid.Prelude.Results.{ok}
use edge_grid.Net.{
  Conn, WriteOutcome, sent, cut, read_full, write, write_as, put_u32, put_u16, u32, u16,
}

pub u32-put_u32 : (n : ℕ) → u32 (put_u32 (n % 2 ^ 32)) ≡ n % 2 ^ 32
unfolding u32 put_u32
u32-put_u32 n = omega arith

pub u16-put_u16 : (n : ℕ) → u16 (put_u16 (n % 2 ^ 16)) ≡ n % 2 ^ 16
unfolding u16 put_u16
u16-put_u16 n = omega arith

pub length-put_u32 : (n : ℕ) → 4 ≡ length (put_u32 n)
unfolding put_u32
length-put_u32 n = refl

pub length-put_u16 : (n : ℕ) → 2 ≡ length (put_u16 n)
unfolding put_u16
length-put_u16 n = refl

-- A length below 2 ^ 32 survives.
pub u32-put_u32_small : (n : ℕ) → n < 2 ^ 32 → u32 (put_u32 (n % 2 ^ 32)) ≡ n
u32-put_u32_small n h = omega (arith, u32-put_u32 n)

-- Reading what stands in front.
pub read_full-append :
    {E : Type 0} (n : ℕ) (e : E) (s rest out : Text) (ws : List WriteOutcome)
    → n ≡ length s
    → read_full n e (record { incoming = s ++ rest; outgoing = out; writes = ws })
      ≡ (ok s, record { incoming = rest; outgoing = out; writes = ws })
unfolding read_full
read_full-append n e s rest out ws h =
    ground (arith, length-append s rest, take-append n s rest h, drop-append n s rest h)

-- Where Write does not fail, it appends.
pub write_ok :
    {E : Type 0} (s : Text) (e : E) (inc out : Text)
    → write s e (record { incoming = inc; outgoing = out; writes = [] })
      ≡ (ok tt, record { incoming = inc; outgoing = out ++ s; writes = [] })
unfolding write
write_ok s e inc out = refl

-- Reading sends nothing.
pub outgoing-read_full :
    {E : Type 0} (n : ℕ) (e : E) (c : Conn) → (read_full n e c).1.outgoing ≡ c.outgoing
unfolding read_full
outgoing-read_full n e c = ground arith

-- Writing takes nothing from the peer.
pub incoming-write :
    {E : Type 0} (s : Text) (e : E) (c : Conn) → (write s e c).1.incoming ≡ c.incoming
unfolding write
incoming-write s e c = go c.writes
  where
    go : (ws : List WriteOutcome) → (write_as ws s e c).1.incoming ≡ c.incoming
    go [] = refl
    go (sent ∷ ws) = refl
    go (cut n ∷ ws) = refl

-- What a successful read took: n bytes from the front.
pub read_full-eq-ok :
    {E : Type 0} (n : ℕ) (e : E) (c d : Conn) (s : Text)
    → read_full n e c ≡ (ok s, d)
    → (c.incoming ≡ s ++ d.incoming) × (length s ≡ n) × (d.outgoing ≡ c.outgoing)
unfolding read_full
read_full-eq-ok n e c d s h =
    ground (arith, take-append-drop n c.incoming, length-take n c.incoming)
