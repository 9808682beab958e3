-- ===== src/Text/Decimal.antt =====
-- strconv.Itoa and strconv.FormatInt in base 10.
use tamga_go.Base.{ℕ, zero, suc, ℤ, pos, negsuc, ◌+◌, ◌/◌, ◌%◌, [], ◌∷◌, ◌++◌, ltb, if◌then◌else◌}
use tamga_go.Text.{Bytes}

-- Each round writes the last digit.
unfoldable pub decimal_from : ℕ → ℕ → Bytes
decimal_from zero n = []
decimal_from (suc fuel) n =
    let front = decimal_from fuel (n / 10) in
    if ltb n 10 then (b'0' + n) ∷ [] else front ++ (b'0' + n % 10) ∷ []

-- 20 digits hold every number below 2 ^ 64.
unfoldable pub decimal : ℕ → Bytes
unfolding decimal_from
decimal n = decimal_from 20 n

unfoldable pub itoa : ℤ → Bytes
unfolding decimal
itoa (pos n) = decimal n
itoa (negsuc n) = b'-' ∷ decimal (suc n)
