-- ===== src/Log/Reader.antt =====
-- A reader of the lines that console_logger writes.
use leos_sdk.Prelude.{
  ℕ, ◌+◌, ◌-◌, ◌*◌, if◌then◌else◌, ◌==◌, Option, none, some, List, [], ◌∷◌, length,
}

-- What a line says: the severity's name, the time in milliseconds and the message.
pub record Entry : Type 0 where
  pub level_name : List ℕ
  pub ms : ℕ
  pub message : List ℕ

infixl 10 ◌>>=◌
abbrev pub ◌>>=◌ : {A B : Type 0} → Option A → (A → Option B) → Option B
none >>= f = none
some a >>= f = f a

abbrev pub tail_of : ℕ → Option (List ℕ × List ℕ) → Option (List ℕ × List ℕ)
tail_of x none = none
tail_of x (some (before, after)) = some (x ∷ before, after)

-- What stands before the first `c` of a text, and what after it.
unfoldable pub split_at : ℕ → List ℕ → Option (List ℕ × List ℕ)
split_at c [] = none
split_at c (x ∷ l) = let rest = tail_of x (split_at c l) in if x == c then some ([], l) else rest

-- A decimal number.
unfoldable pub value : ℕ → List ℕ → ℕ
value acc [] = acc
value acc (d ∷ l) = value (10 * acc + (d - b'0')) l

-- A message without the end of the line.
unfoldable pub without_last : List ℕ → List ℕ
without_last [] = []
without_last (x ∷ []) = []
without_last (x ∷ y ∷ l) = x ∷ without_last (y ∷ l)

-- A line after its `[`: the name, `]`, ESC .. ` `, the seconds, `.`, three digits of
-- milliseconds, `: `, the message and the end of the line.
unfoldable pub read_entry : List ℕ → Option Entry
unfolding split_at value without_last
read_entry l = do
  (name, l) ← split_at b']' l
  (_, l) ← split_at b' ' l
  (seconds, l) ← split_at b'.' l
  (fraction, l) ← split_at b':' l
  (_, l) ← split_at b' ' l
  if length fraction == 3
      then some (record {
        level_name = name;
        ms = 1000 * value 0 seconds + value 0 fraction;
        message = without_last l;
      })
      else none

-- ESC .. `m`, `[`, and the entry.
unfoldable pub read_line : List ℕ → Option Entry
unfolding split_at read_entry
read_line l = do (_, l) ← split_at b'm' l; (_, l) ← split_at b'[' l; read_entry l
