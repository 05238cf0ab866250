-- ===== src/Log/Text.antt =====
-- What printf writes for `%s`, `%lu` and `%03lu`.
use Prim.Native.Char.{code}
use Prim.Native.String.{String}
use leos_sdk.Prelude.{
  ℕ, zero, suc, ◌+◌, ◌-◌, ◌/◌, ◌%◌, if◌then◌else◌, ◌==◌, List, [], ◌∷◌, ◌++◌, length, replicate,
}

-- The characters of an ASCII text.
abbrev pub codes : String → List ℕ
codes String.[] = []
codes (String.◌∷◌ c s) = code c ∷ codes s

-- The digits of a number in front of a text; one unit of fuel for each digit.
unfoldable pub decimal_onto : ℕ → ℕ → List ℕ → List ℕ
decimal_onto zero n text = text
decimal_onto (suc fuel) n text =
    let text' = (b'0' + n % 10) ∷ text in
    let rest = decimal_onto fuel (n / 10) text' in if n / 10 == 0 then text' else rest

-- `%lu`.
unfoldable pub decimal : ℕ → List ℕ
unfolding decimal_onto
decimal n = decimal_onto (suc n) n []

-- `%03lu`.
unfoldable pub decimal_padded : ℕ → ℕ → List ℕ
unfolding decimal
decimal_padded width n = replicate (width - length (decimal n)) b'0' ++ decimal n
