-- ===== src/Log/Digits.antt =====
-- The digits that are written are read again.
use leos_sdk.Prelude.{
  contains, ℕ, zero, suc, ◌+◌, ◌-◌, ◌*◌, ◌/◌, ◌%◌, ◌≤◌, ◌<◌, false, if_cases, ◌==◌, ==_iff,
  ==_false, some, List, [], ◌∷◌, ◌++◌, length, length-append, length-replicate, replicate, ◌≡◌, ◌⊎◌,
  refl, ap, ◌∙◌, arith,
}
use leos_sdk.Log.Text.{decimal_onto, decimal, decimal_padded}
use leos_sdk.Log.Reader.{split_at, value}

pub split_at-append :
    (c : ℕ) (before after : List ℕ)
    → contains c before ≡ false
    → split_at c (before ++ c ∷ after) ≡ some (before, after)
unfolding contains split_at
split_at-append c [] after free = grind arith
split_at-append c (x ∷ l) after free = let rest = split_at-append c l after in ground arith

contains-append :
    (c : ℕ) (l r : List ℕ)
    → contains c l ≡ false
    → contains c r ≡ false
    → contains c (l ++ r) ≡ false
unfolding contains
contains-append c [] r e f = f
contains-append c (x ∷ l) r e f = let rest = contains-append c l r in ground arith

contains-digit :
    (c n : ℕ) (text : List ℕ)
    → (c < b'0') ⊎ (b'9' < c)
    → contains c text ≡ false
    → contains c ((b'0' + n % 10) ∷ text) ≡ false
unfolding contains
contains-digit c n text out e = ground arith

contains-decimal_onto :
    (c fuel n : ℕ) (text : List ℕ)
    → (c < b'0') ⊎ (b'9' < c)
    → contains c text ≡ false
    → contains c (decimal_onto fuel n text) ≡ false
unfolding decimal_onto contains
contains-decimal_onto c zero n text out e = e
contains-decimal_onto c (suc fuel) n text out e =
    let rest = contains-decimal_onto c fuel (n / 10) ((b'0' + n % 10) ∷ text) out in
    let clear : contains c ((b'0' + n % 10) ∷ text) ≡ false = contains-digit c n text out e in
    if_cases (λ t. contains c t ≡ false) (n / 10 == 0) (λ z. clear) (λ z. rest clear)

-- The digits of a number say the number.
value-decimal_onto :
    (fuel n : ℕ) (text : List ℕ) → n < fuel → value 0 (decimal_onto fuel n text) ≡ value n text
unfolding decimal_onto value
value-decimal_onto zero n text h = absurd (omega arith)
value-decimal_onto (suc fuel) n text h =
    let rest = value-decimal_onto fuel (n / 10) ((b'0' + n % 10) ∷ text) in
    if_cases (λ t. value 0 t ≡ value n text) (n / 10 == 0)
      (λ z. ap (λ k. value k text) (omega (arith, (==_iff (n / 10) 0).0 z)))
      (λ z. rest (omega (arith, ==_false (n / 10) 0 z)) ∙ ap (λ k. value k text) (omega arith))

-- A number of `w + 1` digits is below it.
abbrev above : ℕ → ℕ
above zero = 10
above (suc w) = 10 * above w

length-decimal_onto :
    (w fuel n : ℕ) (text : List ℕ)
    → n < above w
    → length (decimal_onto fuel n text) ≤ suc w + length text
unfolding decimal_onto
length-decimal_onto w zero n text h = omega arith
length-decimal_onto zero (suc fuel) n text h =
    if_cases (λ (t : List ℕ). length t ≤ 1 + length text) (n / 10 == 0) {x = (b'0' + n % 10) ∷ text}
      (λ z. omega arith) (λ z. absurd (==_false (n / 10) 0 z (omega arith)))
length-decimal_onto (suc w) (suc fuel) n text h =
    let rest = length-decimal_onto w fuel (n / 10) ((b'0' + n % 10) ∷ text) in
    if_cases (λ (t : List ℕ). length t ≤ suc (suc w) + length text) (n / 10 == 0)
      {x = (b'0' + n % 10) ∷ text} (λ z. omega arith)
      (λ z. let shorter = rest (omega arith) in omega arith)

pub length-decimal_padded : (n : ℕ) → n < 1000 → length (decimal_padded 3 n) ≡ 3
unfolding decimal_padded decimal
length-decimal_padded n h =
    let text = decimal_onto (suc n) n [] in
    let short = length-decimal_onto 2 (suc n) n [] h in
    let pad : length {A = ℕ} (replicate (3 - length text) b'0') ≡ 3 - length text =
      length-replicate (3 - length text) b'0' in
    let sum : length (decimal_padded 3 n)
        ≡ length {A = ℕ} (replicate (3 - length text) b'0') + length text =
      length-append (replicate (3 - length text) b'0') text in
    omega (arith, sum, pad, short)

value-zeros : (k : ℕ) (text : List ℕ) → value 0 (replicate k b'0' ++ text) ≡ value 0 text
unfolding value
value-zeros zero text = refl
value-zeros (suc k) text = value-zeros k text

pub value-decimal : (n : ℕ) → value 0 (decimal n) ≡ n
unfolding decimal value
value-decimal n = value-decimal_onto (suc n) n [] (omega arith)

pub value-decimal_padded : (width n : ℕ) → value 0 (decimal_padded width n) ≡ n
unfolding decimal_padded
value-decimal_padded width n =
    value-zeros (width - length (decimal n)) (decimal n) ∙ value-decimal n

contains-zeros : (c k : ℕ) → (c < b'0') ⊎ (b'9' < c) → contains c (replicate k b'0') ≡ false
unfolding contains
contains-zeros c zero out = refl
contains-zeros c (suc k) out = let rest = contains-zeros c k out in ground arith

pub contains-decimal : (c n : ℕ) → (c < b'0') ⊎ (b'9' < c) → contains c (decimal n) ≡ false
unfolding decimal contains
contains-decimal c n out = contains-decimal_onto c (suc n) n [] out refl

pub contains-decimal_padded :
    (c width n : ℕ) → (c < b'0') ⊎ (b'9' < c) → contains c (decimal_padded width n) ≡ false
unfolding decimal_padded
contains-decimal_padded c width n out =
    contains-append c (replicate (width - length (decimal n)) b'0') (decimal n)
      (contains-zeros c (width - length (decimal n)) out) (contains-decimal c n out)
