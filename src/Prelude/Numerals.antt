-- ===== src/Prelude/Numerals.antt =====
-- Python's `str` of a natural number and of a UUID.
use Prim.Native.Nat.{ℕ, zero, suc, ◌+◌, ◌/◌, ◌%◌, ◌^◌}
use Prim.Native.String.{String, ◌++◌, slice}
use mathlib.Core.Bool.{true, false}
use mathlib.Core.Path.{◌≡◌, refl}
use ihms_oms.Prelude.Tests.{ltb}

-- A hexadecimal digit.
unfoldable pub digit_text : ℕ → String
digit_text n = slice "0123456789abcdef" n (n + 1)

-- The decimal digits of `n` before a text; `n` rounds are enough, since a round divides by ten.
unfoldable pub decimal_onto : ℕ → ℕ → String → String
unfolding digit_text
decimal_onto zero n rest = digit_text (n % 10) ++ rest
decimal_onto (suc rounds) n rest = elim (ltb n 10) [
  | true ↦ digit_text n ++ rest
  | false ↦ decimal_onto rounds (n / 10) (digit_text (n % 10) ++ rest)
]

-- `str(n)`
unfoldable pub decimal : ℕ → String
unfolding decimal_onto
decimal n = decimal_onto n n ""

-- The last `k` hexadecimal digits of `n`, before a text.
unfoldable pub hex_onto : ℕ → ℕ → String → String
unfolding digit_text
hex_onto zero n rest = rest
hex_onto (suc k) n rest = hex_onto k (n / 16) (digit_text (n % 16) ++ rest)

-- `str(uuid)`: 32 hexadecimal digits, with hyphens after 8, 12, 16 and 20 of them.
unfoldable pub uuid_text : ℕ → String
unfolding hex_onto
uuid_text n = hex_onto 8 (n / 16 ^ 24) (
    "-"
    ++ hex_onto 4 (n / 16 ^ 20) (
        "-"
        ++ hex_onto 4 (n / 16 ^ 16) ("-" ++ hex_onto 4 (n / 16 ^ 12) ("-" ++ hex_onto 12 n ""))))

decimal_runs : decimal 40960 ≡ "40960"
unfolding decimal
decimal_runs = refl

uuid_text_runs : uuid_text 99 ≡ "00000000-0000-0000-0000-000000000063"
unfolding uuid_text
uuid_text_runs = refl
