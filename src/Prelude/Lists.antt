-- ===== src/Prelude/Lists.antt =====
-- Lists measured by native numbers, and buffers as C reads and writes them.
use Prim.Native.Nat.{ℕ, zero, suc, ◌+◌, ◌-◌, ◌≤◌}
use mathlib.Core.Path.{◌≡◌, refl, sym, ap, ◌∙◌}
use mathlib.Core.Bool.{Bool, true, false}
use mathlib.Core.List.{List, [], ◌∷◌, ◌++◌}
use leos_sdk.Prelude.Tests.{◌==◌, if◌then◌else◌}
use native.Mathlib.Omega.{arith}

module _ {ℓ} {A : Type ℓ} where
  abbrev pub length : List A → ℕ
  length [] = 0
  length (x ∷ xs) = suc (length xs)

  abbrev pub get_or : List A → ℕ → A → A
  get_or [] i d = d
  get_or (x ∷ xs) zero d = x
  get_or (x ∷ xs) (suc i) d = get_or xs i d

  abbrev pub take : ℕ → List A → List A
  take zero xs = []
  take (suc n) [] = []
  take (suc n) (x ∷ xs) = x ∷ take n xs

  abbrev pub drop : ℕ → List A → List A
  drop zero xs = xs
  drop (suc n) [] = []
  drop (suc n) (x ∷ xs) = drop n xs

  abbrev pub replicate : ℕ → A → List A
  replicate zero a = []
  replicate (suc n) a = a ∷ replicate n a

module _ {ℓ} {A : Type ℓ} where
  pub length-append : (xs ys : List A) → length (xs ++ ys) ≡ length xs + length ys
  length-append [] ys = omega arith
  length-append (x ∷ xs) ys = omega (arith, length-append xs ys)

  pub length-drop : (n : ℕ) (xs : List A) → length (drop n xs) ≡ length xs - n
  length-drop zero xs = omega arith
  length-drop (suc n) [] = omega arith
  length-drop (suc n) (x ∷ xs) = omega (arith, length-drop n xs)

  pub length-replicate : (n : ℕ) (a : A) → length (replicate n a) ≡ n
  length-replicate zero a = refl
  length-replicate (suc n) a = ap suc (length-replicate n a)

  -- The first part of a concatenation is what stands in front.
  pub take_front : (xs ys : List A) → take (length xs) (xs ++ ys) ≡ xs
  take_front [] ys = refl
  take_front (x ∷ xs) ys = ap (λ l. x ∷ l) (take_front xs ys)

-- The bytes at a C pointer, by their offset.
abbrev pub Buffer : Type 0
Buffer = ℕ → ℕ

abbrev pub bytes_from : Buffer → ℕ → ℕ → List ℕ
bytes_from buf i zero = []
bytes_from buf i (suc n) = buf i ∷ bytes_from buf (i + 1) n

-- The first `n` bytes at a pointer.
unfoldable pub bytes : Buffer → ℕ → List ℕ
bytes buf n = bytes_from buf 0 n

length-bytes_from : (buf : Buffer) (i n : ℕ) → length (bytes_from buf i n) ≡ n
length-bytes_from buf i zero = refl
length-bytes_from buf i (suc n) = ap suc (length-bytes_from buf (i + 1) n)

pub length-bytes : (buf : Buffer) (n : ℕ) → length (bytes buf n) ≡ n
unfolding bytes
length-bytes buf n = length-bytes_from buf 0 n

-- `memcpy(dst, src, n)` into a larger array: the first `n` bytes are replaced.
unfoldable pub memcpy : List ℕ → Buffer → ℕ → List ℕ
memcpy dst src n = bytes src n ++ drop n dst

pub length-memcpy :
    (dst : List ℕ) (src : Buffer) (n : ℕ) → n ≤ length dst → length (memcpy dst src n) ≡ length dst
unfolding memcpy
length-memcpy dst src n h =
    omega (
      arith,
      length-append {0} (bytes src n) (drop n dst),
      length-bytes src n,
      length-drop {0} n dst,
    )

pub take-memcpy : (dst : List ℕ) (src : Buffer) (n : ℕ) → take n (memcpy dst src n) ≡ bytes src n
unfolding memcpy
take-memcpy dst src n =
    ap (λ k. take k (bytes src n ++ drop n dst)) (sym (length-bytes src n))
    ∙ take_front (bytes src n) (drop n dst)

-- Whether a number stands in a list.
unfoldable pub contains : ℕ → List ℕ → Bool
contains c [] = false
contains c (x ∷ l) = let rest = contains c l in if x == c then true else rest
