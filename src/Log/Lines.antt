-- ===== src/Log/Lines.antt =====
-- The reader finds in a line what console_logger wrote there.
use leos_sdk.Prelude.{
  contains, ℕ, ◌+◌, ◌*◌, ◌/◌, ◌%◌, false, some, List, [], ◌∷◌, ◌++◌, length, ◌≡◌, inl, inr, refl,
  ap, ◌∙◌, arith,
}
use mathlib.Core.List.{append_assoc}
use leos_sdk.Log.Digits.{
  split_at-append, contains-decimal, contains-decimal_padded, value-decimal, value-decimal_padded,
  length-decimal_padded,
}
use leos_sdk.Log.Text.{decimal, decimal_padded}
use leos_sdk.Log.Console.{
  Level, Platform, color_of, time_text, head, col_reset, platform_time_ms, console_logger,
}
use leos_sdk.Log.Reader.{split_at, value, without_last, read_entry, read_line}

without_last-append : (l : List ℕ) (x : ℕ) → without_last (l ++ x ∷ []) ≡ l
unfolding without_last
without_last-append [] x = refl
without_last-append (y ∷ []) x = refl
without_last-append (y ∷ z ∷ l) x = ap (λ t. y ∷ t) (without_last-append (z ∷ l) x)

abbrev rest_of_line : List ℕ → ℕ → List ℕ → List ℕ
rest_of_line name ms msg =
    name ++ b']' ∷ (col_reset ++ b' ' ∷ (time_text ms ++ b':' ∷ b' ' ∷ (msg ++ 10 ∷ [])))

read_entry_lem :
    {name l1 color l2 seconds l3 fraction l4 space l5 : List ℕ} (l : List ℕ)
    → split_at b']' l ≡ some (name, l1)
    → split_at b' ' l1 ≡ some (color, l2)
    → split_at b'.' l2 ≡ some (seconds, l3)
    → split_at b':' l3 ≡ some (fraction, l4)
    → split_at b' ' l4 ≡ some (space, l5)
    → length fraction ≡ 3
    → read_entry l
      ≡ some (record {
        level_name = name;
        ms = 1000 * value 0 seconds + value 0 fraction;
        message = without_last l5;
      })
unfolding read_entry
read_entry_lem l e1 e2 e3 e4 e5 e6 = rw (e1, e2, e3, e4, e5, e6) refl

read_entry-rest_of_line :
    (name : List ℕ) (ms : ℕ) (msg : List ℕ)
    → contains b']' name ≡ false
    → read_entry (rest_of_line name ms msg)
      ≡ some (record { level_name = name; ms = ms; message = msg })
unfolding read_entry time_text split_at
read_entry-rest_of_line name ms msg free =
    let digits = decimal_padded 3 (ms % 1000) in
    let tail = b':' ∷ b' ' ∷ (msg ++ 10 ∷ []) in
    let after = col_reset ++ b' ' ∷ (time_text ms ++ tail) in
    let whole =
      read_entry_lem (name ++ b']' ∷ after) (split_at-append b']' name after free) refl
        (ap (split_at b'.') (append_assoc (decimal (ms / 1000)) (b'.' ∷ digits) tail)
          ∙ split_at-append b'.' (decimal (ms / 1000)) (digits ++ tail)
              (contains-decimal b'.' (ms / 1000) (inl (omega arith))))
        (split_at-append b':' digits (b' ' ∷ msg ++ 10 ∷ [])
          (contains-decimal_padded b':' 3 (ms % 1000) (inr (omega arith))))
        refl (length-decimal_padded (ms % 1000) (omega arith)) in
    whole
    ∙ ap (λ t. some (record { level_name = name; ms = t; message = without_last (msg ++ 10 ∷ []) }))
        (omega (arith, value-decimal (ms / 1000), value-decimal_padded 3 (ms % 1000)))
    ∙ ap (λ l. some (record { level_name = name; ms = ms; message = l }))
        (without_last-append msg 10)

read_line-color_of :
    (severity : Level) (l : List ℕ) → read_line (color_of severity ++ b'[' ∷ l) ≡ read_entry l
unfolding read_line color_of split_at
read_line-color_of Level.ulog_trace_level l = refl
read_line-color_of Level.ulog_debug_level l = refl
read_line-color_of Level.ulog_info_level l = refl
read_line-color_of Level.ulog_warning_level l = refl
read_line-color_of Level.ulog_error_level l = refl
read_line-color_of Level.ulog_critical_level l = refl
read_line-color_of (Level.other _) l = refl

head-append :
    (color name : List ℕ) (ms : ℕ) (msg : List ℕ)
    → head color name ms ++ (msg ++ 10 ∷ []) ≡ color ++ b'[' ∷ rest_of_line name ms msg
unfolding head
head-append color name ms msg = simp append_assoc refl

module _ {W : Type 0} (p : Platform W) (printed : W → List ℕ)
    (prints : (text : List ℕ) (w : W) → printed (p.print text w) ≡ printed w ++ text) where
  -- Where the name of the severity has no `]`, and what is printed is added to the output:
  -- console_logger adds a line that reads as the name of the severity, the time in milliseconds at
  -- the call and the message, with a fraction of exactly three digits.
  pub console_logger-read_line :
      (severity : Level) (msg : List ℕ) (w : W)
      → contains b']' (p.level_name severity) ≡ false
      → (l : List ℕ) × (printed (console_logger p severity msg w) ≡ printed w ++ l)
        × (read_line l
            ≡ some (record {
              level_name = p.level_name severity;
              ms = platform_time_ms p w;
              message = msg;
            }))
  unfolding console_logger
  console_logger-read_line severity msg w free =
      let name = p.level_name severity in
      let ms = platform_time_ms p w in
      let text = head (color_of severity) name ms in
      (
        text ++ (msg ++ 10 ∷ []),
        prints _ (p.print text w)
            ∙ ap (λ l. l ++ (msg ++ 10 ∷ [])) (prints text w)
            ∙ append_assoc (printed w) text (msg ++ 10 ∷ []),
        ap read_line (head-append (color_of severity) name ms msg)
            ∙ read_line-color_of severity _
            ∙ read_entry-rest_of_line name ms msg free,
      )
