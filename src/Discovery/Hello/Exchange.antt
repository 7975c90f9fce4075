-- ===== src/Discovery/Hello/Exchange.antt =====
-- The two ends of a greeting.
use edge_grid.Prelude.{
  ℕ, ◌%◌, ◌^◌, ◌≤◌, ◌<◌, ◌≡◌, refl, true, Text, List, [], ◌++◌, length, some, append-nil,
  append_assoc, arith, le→ltb_false, lt→ltb,
}
use edge_grid.Prelude.Results.{ok, err}
use edge_grid.Net.{WriteOutcome, put_u32}
use edge_grid.Net.Laws.{read_full-append, write_ok, length-put_u32, u32-put_u32_small}
use edge_grid.Json.{Codec}
use edge_grid.Blob.Wire.RoundTrip.{conn}
use edge_grid.Discovery.Hello.{
  Hello, max_hello_size, write_hello, read_hello, exchange_as_dialer, exchange_as_listener,
  too_long,
}

abbrev pub hello_frame : Text → Text
hello_frame body = put_u32 (length body % 2 ^ 32) ++ body

module _ (json : Codec Hello) where
  write_hello_ok :
      (h : Hello) (body inc out : Text)
      → json.marshal h ≡ some body
      → write_hello json h (conn inc out []) ≡ (ok tt, conn inc (out ++ hello_frame body) [])
  unfolding write_hello
  write_hello_ok h body inc out e = rw (e, write_ok, write_ok, append_assoc)

  read_hello-frame :
      (h : Hello) (body rest out : Text) (ws : List WriteOutcome)
      → json.unmarshal body ≡ some h
      → length body ≤ max_hello_size
      → read_hello json (conn (hello_frame body ++ rest) out ws) ≡ (ok h, conn rest out ws)
  unfolding read_hello
  read_hello-frame h body rest out ws e fits =
      rw
        (
          append_assoc (put_u32 (length body % 2 ^ 32)) body rest,
          read_full-append 4 _ (put_u32 (length body % 2 ^ 32)) (body ++ rest) out ws
              (length-put_u32 _),
          u32-put_u32_small (length body) (omega arith),
        )
        (rw (le→ltb_false _ _ fits, read_full-append (length body) _ body rest out ws refl, e))

  -- A hello whose frame declares more than 64 KiB is refused with not a byte read of its body.
  pub read_hello_too_long :
      (n : ℕ) (rest out : Text) (ws : List WriteOutcome)
      → max_hello_size < n
      → n < 2 ^ 32
      → read_hello json (conn (put_u32 (n % 2 ^ 32) ++ rest) out ws)
        ≡ (err (too_long n), conn rest out ws)
  unfolding read_hello
  read_hello_too_long n rest out ws big small =
      rw
        (
          read_full-append 4 _ (put_u32 (n % 2 ^ 32)) rest out ws (length-put_u32 _),
          u32-put_u32_small n small,
        )
        (rw (lt→ltb _ _ big) refl)

  -- The dialer, with something behind the other's hello.
  pub dialer_greets :
      (mine yours : Hello) (a b rest : Text)
      → json.marshal mine ≡ some a
      → json.unmarshal b ≡ some yours
      → length b ≤ max_hello_size
      → exchange_as_dialer json true mine (conn (hello_frame b ++ rest) [] [])
        ≡ (ok yours, conn rest (hello_frame a) [])
  unfolding exchange_as_dialer
  dialer_greets mine yours a b rest ma ub fb = rw (
    write_hello_ok mine a (hello_frame b ++ rest) [] ma,
    read_hello-frame yours b rest (hello_frame a) [] ub fb,
  )

  -- The listener, likewise.
  pub listener_greets :
      (mine yours : Hello) (a b rest : Text)
      → json.unmarshal a ≡ some mine
      → length a ≤ max_hello_size
      → json.marshal yours ≡ some b
      → exchange_as_listener json true yours (conn (hello_frame a ++ rest) [] [])
        ≡ (ok mine, conn rest (hello_frame b) [])
  unfolding exchange_as_listener
  listener_greets mine yours a b rest ua fa mb =
      rw (read_hello-frame mine a rest [] [] ua fa, write_hello_ok yours b rest [] mb) refl

  -- Each end of a greeting gets the other's hello: the dialer's frame arrives at the listener,
  -- whose own frame arrives at the dialer, if the hellos fit their limit and decode to what was
  -- encoded, the deadlines are set, and no write fails.
  pub exchange_swaps :
      (mine yours : Hello) (a b : Text)
      → json.marshal mine ≡ some a
      → json.unmarshal a ≡ some mine
      → length a ≤ max_hello_size
      → json.marshal yours ≡ some b
      → json.unmarshal b ≡ some yours
      → length b ≤ max_hello_size
      → (exchange_as_listener json true yours (conn (hello_frame a) [] [])
          ≡ (ok mine, conn [] (hello_frame b) []))
        × (exchange_as_dialer json true mine (conn (hello_frame b) [] [])
            ≡ (ok yours, conn [] (hello_frame a) []))
  unfolding exchange_as_listener exchange_as_dialer
  exchange_swaps mine yours a b ma ua fa mb ub fb = (
    rw (rw append-nil at (read_hello-frame mine a [] [] [] ua fa), write_hello_ok yours b [] [] mb),
    rw (
      write_hello_ok mine a (hello_frame b) [] ma,
      rw append-nil at (read_hello-frame yours b [] (hello_frame a) [] ub fb),
    ),
  )
