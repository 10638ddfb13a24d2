-- ===== src/Common/Decimal.antt =====
-- Numbers in decimal, as `str` writes them.

pub mod Injective
use boxoffice.Common.{ℕ, zero, suc, ◌+◌, ◌/◌, ◌%◌, [], ◌∷◌, ◌++◌, ltb, if◌then◌else◌}
use boxoffice.Common.Text.{Text}

-- `str` of a number, in decimal; a number has fewer digits than its successor counts.
abbrev pub digits : ℕ → ℕ → Text
digits zero n = []
digits (suc fuel) n =
    let rest = digits fuel (n / 10) in (if ltb n 10 then [] else rest) ++ (48 + n % 10) ∷ []

unfoldable pub decimal : ℕ → Text
decimal n = digits (n + 1) n
