-- ===== src/LinuxPort/Requests.antt =====
-- The requests of RESET, NSS and BUSY, and who holds them afterwards.
use leos_sdk.Prelude.{ℕ, ◌+◌, ◌-◌, Option, none, some, ◌≡◌, refl, ap, ◌∙◌, arith}
use leos_sdk.Sx126x.Types.{Radio}
use leos_sdk.LinuxPort.Gpiod.{
  output_active, input, leos_sx126x_reset, leos_sx126x_nss, leos_sx126x_busy, Gpiod, State,
}
use leos_sdk.LinuxPort.Lines.{
  gpio_of, set_gpio, Attempt, unmade, made, request_line, open_chip, keep_reset, ensure_reset,
  keep_busy, request_busy, keep_nss, request_nss,
}
use leos_sdk.LinuxPort.Balance.{
  line_request, Name, Books, Alive, Alive-same, Alive-count, Alive-drop, tally_attempt,
  CountsObjects, request_line-Alive,
}
use leos_sdk.LinuxPort.Ownership.{
  count, held, IsCounted, IsAccounted, same_requests, same_lines, Accounts, unchanged, replaced,
  set_gpio-IsCounted, set_gpio-gpio_of, count_lines-held,
}

-- The object of one name.
module _ {W : Type 0} (lib : Gpiod W) (x : Name) (books : W → Books)
    (counts : CountsObjects lib x books) where
  open_chip-IsCounted :
      (k : ℕ) (o : Option ℕ) (s : State W)
      → IsCounted x books k s
      → IsCounted x books k (open_chip lib o s).1
  unfolding open_chip
  open_chip-IsCounted k none s acc = Alive-same (counts.chip_open s.world) acc
  open_chip-IsCounted k (some _) s acc = acc

  keep_reset-IsCounted :
      (k offset : ℕ) (s : State W) (o : Attempt × W)
      → s.g_reset_req ≡ none
      → Alive (books o.1) (tally_attempt x o.0 + (held x s + k))
      → IsCounted x books k (keep_reset lib offset s o).1
  unfolding keep_reset
  keep_reset-IsCounted k offset s (unmade, w) e acc = Alive-count (omega arith) acc
  keep_reset-IsCounted k offset s (made none, w) e acc =
      let no = ap (count x) e in Alive-count (omega arith) acc
  keep_reset-IsCounted k offset s (made (some q), w) e acc =
      let no = ap (count x) e in Alive-count (omega arith) acc

  ensure_reset-IsCounted :
      (k offset : ℕ) (o : Option ℕ) (s : State W)
      → s.g_reset_req ≡ o
      → IsCounted x books k s
      → IsCounted x books k (ensure_reset lib o offset s).1
  unfolding ensure_reset
  ensure_reset-IsCounted k offset none s e acc =
      keep_reset-IsCounted k offset s
        (request_line lib s.g_gpio_chip output_active leos_sx126x_reset offset s.world) e
        (request_line-Alive lib x books counts s.g_gpio_chip output_active leos_sx126x_reset offset
          s.world (held x s + k) acc)
  ensure_reset-IsCounted k offset (some _) s e acc = acc

  keep_busy-IsCounted :
      (k : ℕ) (radio : Radio) (nss : ℕ) (s : State W) (o : Attempt × W)
      → (gpio_of radio s).nss_req ≡ some nss
      → (gpio_of radio s).busy_req ≡ none
      → Alive (books o.1) (tally_attempt x o.0 + (held x s + k))
      → IsCounted x books k (keep_busy lib radio nss s o).1
  unfolding keep_busy
  keep_busy-IsCounted k radio nss s (unmade, w) en eb acc = Alive-count (omega arith) acc
  keep_busy-IsCounted k radio nss s (made none, w) en eb acc =
      let one = ap (count x) en in
      let no = ap (count x) eb in
      let some_held = count_lines-held x radio s in
      set_gpio-IsCounted x books k (held x s + k - count x (some nss)) radio _ s
        (lib.request_release nss w)
        (Alive-drop x line_request nss (counts.request_release nss w)
          (Alive-count (omega arith) acc))
        (omega arith)
  keep_busy-IsCounted k radio nss s (made (some busy), w) en eb acc =
      let one = ap (count x) en in
      let no = ap (count x) eb in
      set_gpio-IsCounted x books k (count x (some busy) + (held x s + k)) radio _ s w acc
        (omega arith)

  -- The request that the field held is lost: it counts as another's.
  nss_made-IsCounted :
      (k : ℕ) (radio : Radio) (nss : ℕ) (s : State W) (w : W)
      → (gpio_of radio s).busy_req ≡ none
      → Alive (books w) (count x (some nss) + (held x s + k))
      → IsCounted x books
          (k + count x (gpio_of radio s).nss_req)
          (request_busy lib radio nss (
            set_gpio radio
              (record (gpio_of radio s) { nss_req = some nss })
              (record s { world = w }))).1
  unfolding request_busy
  nss_made-IsCounted k radio nss s w eb acc =
      let no_busy = ap (count x) eb in
      let j = k + count x (gpio_of radio s).nss_req in
      let g = record (gpio_of radio s) { nss_req = some nss } in
      let t = set_gpio radio g (record s { world = w }) in
      let same = set_gpio-gpio_of radio g (record s { world = w }) in
      let acc' =
        set_gpio-IsCounted x books j (count x (some nss) + (held x s + k)) radio g s w acc
          (omega arith) in
      keep_busy-IsCounted j radio nss t
        (request_line lib t.g_gpio_chip input leos_sx126x_busy (gpio_of radio t).busy_offset
          t.world)
        (ap (λ g. g.nss_req) same) (ap (λ g. g.busy_req) same ∙ eb)
        (request_line-Alive lib x books counts t.g_gpio_chip input leos_sx126x_busy
          (gpio_of radio t).busy_offset t.world (held x t + j) acc')

  refused-IsCounted :
      (k : ℕ) (radio : Radio) (s : State W) (w : W)
      → Alive (books w) (held x s + k)
      → IsCounted x books
          (k + count x (gpio_of radio s).nss_req)
          (set_gpio radio (record (gpio_of radio s) { nss_req = none }) (record s { world = w }))
  refused-IsCounted k radio s w acc =
      set_gpio-IsCounted x books (k + count x (gpio_of radio s).nss_req) (held x s + k) radio _ s w
        acc (omega arith)

-- Every object.
module _ {W : Type 0} (lib : Gpiod W) (books : W → Name → Books)
    (counts : (x : Name) → CountsObjects lib x (λ w. books w x)) where
  pub open_chip-IsAccounted :
      (k : Name → ℕ) (o : Option ℕ) (s : State W)
      → IsAccounted books k s
      → IsAccounted books k (open_chip lib o s).1
  open_chip-IsAccounted k o s acc x =
      open_chip-IsCounted lib x (λ w. books w x) (counts x) (k x) o s (acc x)

  pub ensure_reset-IsAccounted :
      (k : Name → ℕ) (offset : ℕ) (s : State W)
      → IsAccounted books k s
      → IsAccounted books k (ensure_reset lib s.g_reset_req offset s).1
  ensure_reset-IsAccounted k offset s acc x =
      ensure_reset-IsCounted lib x (λ w. books w x) (counts x) (k x) offset s.g_reset_req s refl
        (acc x)

  -- Nothing was done, or the request that the field held is lost.
  keep_nss-Accounts :
      (k : Name → ℕ) (radio : Radio) (s : State W) (o : Attempt × W)
      → (gpio_of radio s).busy_req ≡ none
      → ((x : Name) → Alive (books o.1 x) (tally_attempt x o.0 + (held x s + k x)))
      → Accounts books k radio s (keep_nss lib radio s o).1
  unfolding keep_nss
  keep_nss-Accounts k radio s (unmade, w) eb acc =
      unchanged (same_requests (same_lines radio s w)) (λ x. Alive-count (omega arith) (acc x))
  keep_nss-Accounts k radio s (made none, w) eb acc = replaced (λ x.
      refused-IsCounted lib x (λ w. books w x) (counts x) (k x) radio s w
        (Alive-count (omega arith) (acc x)))
  keep_nss-Accounts k radio s (made (some nss), w) eb acc =
      replaced
        (λ x. nss_made-IsCounted lib x (λ w. books w x) (counts x) (k x) radio nss s w eb (acc x))

  pub request_nss-Accounts :
      (k : Name → ℕ) (radio : Radio) (s : State W)
      → (gpio_of radio s).busy_req ≡ none
      → IsAccounted books k s
      → Accounts books k radio s (request_nss lib radio s).1
  unfolding request_nss
  request_nss-Accounts k radio s eb acc =
      let offset = (gpio_of radio s).nss_offset in
      keep_nss-Accounts k radio s
        (request_line lib s.g_gpio_chip output_active leos_sx126x_nss offset s.world) eb
        (λ x.
          request_line-Alive lib x (λ w. books w x) (counts x) s.g_gpio_chip output_active
            leos_sx126x_nss offset s.world (held x s + k x) (acc x))
