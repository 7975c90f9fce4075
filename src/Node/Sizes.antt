-- ===== src/Node/Sizes.antt =====
-- formatBytes of internal/node/freespace.go, and humanBytes of internal/tui/dashboard/peers.go, which
-- does the same on sizes that are not negative: a number of bytes with one decimal and a unit.
pub mod Scaled
use edge_grid.Prelude.{
  ℕ, zero, suc, ◌+◌, ◌*◌, ◌/◌, ◌%◌, ◌^◌, ◌≡◌, refl, Bool, true, false, Text, [], ◌∷◌, ◌++◌, codes,
  show, ltb, ◌-◌, if◌then◌else◌,
}

-- A quotient rounded to the nearest number, ties to the even one.
unfoldable pub round_div : ℕ → ℕ → ℕ
round_div a b =
    let q = a / b in
    let twice = 2 * (a % b) in if ltb twice b then q else if ltb b twice then q + 1 else q + q % 2

-- float64(n) of a uint64: 53 bits are kept.
float_at : ℕ → ℕ → ℕ → ℕ
float_at zero unit n = n
float_at (suc fuel) unit n =
    let wider = float_at fuel (2 * unit) n in
    if ltb n (unit * 2 ^ 53) then round_div n unit * unit else wider

unfoldable pub float_of : ℕ → ℕ
unfolding float_at
float_of n = float_at 12 1 n

-- `div` and `exp` when the loop ends. The rounds are bounded by the bits of an uint64.
unfoldable pub scale_loop : ℕ → ℕ → ℕ → ℕ → ℕ × ℕ
scale_loop zero v div exp = (div, exp)
scale_loop (suc fuel) v div exp =
    let more = scale_loop fuel (v / 1024) (div * 1024) (suc exp) in
    if ltb v 1024 then (div, exp) else more

unfoldable pub scale : ℕ → ℕ × ℕ
scale n = scale_loop 6 (n / 1024) 1024 0

-- `"KMGTPE"[exp]`, 0 out of range.
unfoldable pub unit_letter : ℕ → ℕ
unit_letter zero = b'K'
unit_letter (suc zero) = b'M'
unit_letter (suc (suc zero)) = b'G'
unit_letter (suc (suc (suc zero))) = b'T'
unit_letter (suc (suc (suc (suc zero)))) = b'P'
unit_letter (suc (suc (suc (suc (suc zero))))) = b'E'
unit_letter _ = 0

-- fmt.Sprintf("%.1f"), of a number of tenths.
one_decimal : ℕ → Text
one_decimal tenths = show (tenths / 10) ++ (b'.' ∷ show (tenths % 10))

scaled : ℕ → ℕ × ℕ → Text
unfolding one_decimal
scaled n (div, exp) =
    one_decimal (round_div (float_of n * 10) div) ++ (b' ' ∷ unit_letter exp ∷ codes "iB")

unfoldable pub format_bytes : ℕ → Text
unfolding scaled
format_bytes n = if ltb n 1024 then show n ++ codes " B" else scaled n (scale n)

format_bytes_examples :
    (format_bytes 1023 ≡ codes "1023 B")
    × (format_bytes 1536 ≡ codes "1.5 KiB")
    × (format_bytes 268_435_456 ≡ codes "256.0 MiB")
    × (format_bytes (2 ^ 64 - 1) ≡ codes "16.0 EiB")
unfolding format_bytes scale float_of show round_div scale_loop unit_letter
format_bytes_examples = (refl, refl, refl, refl)
