-- ===== src/LinuxPort/Initialisation.antt =====
-- The initialisation of a radio's lines, from its start to its end.
use leos_sdk.Prelude.{
  ℕ, zero, suc, ◌+◌, false, if_cases, Option, none, some, ◌≡◌, refl, ap, ◌∙◌, sym, arith,
}
use leos_sdk.Sx126x.Types.{Radio}
use leos_sdk.Sx126x.Context.{Context}
use leos_sdk.LinuxPort.Gpiod.{output_active, leos_sx126x_reset, Gpiod, Gpio, State}
use leos_sdk.LinuxPort.Lines.{
  gpio_of, set_gpio, Attempt, unmade, made, request_line, open_chip, gpio_chip_open, keep_reset,
  ensure_reset, reset_gpio_ensure, request_nss, unless_failed, request_all, gpio_init_open,
  gpio_init_ctx,
}
use leos_sdk.LinuxPort.Balance.{Name, Books, CountsObjects}
use leos_sdk.LinuxPort.Ownership.{
  count, held, IsAccounted, SameRequests, same_requests, same_lines, Accounts, unchanged, replaced,
  set_gpio-IsCounted, set_gpio-gpio_of,
}
use leos_sdk.LinuxPort.Requests.{
  open_chip-IsAccounted, ensure_reset-IsAccounted, request_nss-Accounts,
}

pub SameRequests-trans : {f g h : Gpio} → SameRequests f g → SameRequests g h → SameRequests f h
SameRequests-trans a b = record {
  nss_req = b.nss_req ∙ a.nss_req;
  busy_req = b.busy_req ∙ a.busy_req;
  requested = b.requested ∙ a.requested;
}

pub offsets-SameRequests :
    (g : Gpio) (a b : ℕ) → SameRequests g (record g { nss_offset = a; busy_offset = b })
offsets-SameRequests g a b = record { nss_req = refl; busy_req = refl; requested = refl }

module _ {W : Type 0} where
  shared-gpio_of :
      (radio : Radio) (s : State W) (q : Option ℕ) (offset : ℕ) (w : W)
      → gpio_of radio (record s { g_reset_req = q; g_reset_offset = offset; world = w })
        ≡ gpio_of radio s
  unfolding gpio_of
  shared-gpio_of Radio.sx1262 s q offset w = refl
  shared-gpio_of Radio.sx1268 s q offset w = refl
  shared-gpio_of (Radio.other _) s q offset w = refl

  chip-gpio_of :
      (radio : Radio) (s : State W) (c : Option ℕ) (w : W)
      → gpio_of radio (record s { g_gpio_chip = c; world = w }) ≡ gpio_of radio s
  unfolding gpio_of
  chip-gpio_of Radio.sx1262 s c w = refl
  chip-gpio_of Radio.sx1268 s c w = refl
  chip-gpio_of (Radio.other _) s c w = refl

  Accounts-trans :
      (books : W → Name → Books) (k : Name → ℕ) (radio : Radio) (s t u : State W)
      → SameRequests (gpio_of radio s) (gpio_of radio t)
      → Accounts books k radio t u
      → Accounts books k radio s u
  Accounts-trans books k radio s t u same (unchanged same' acc) =
      unchanged (SameRequests-trans same same') acc
  Accounts-trans books k radio s t u same (replaced acc) =
      replaced (λ x. rw (← ap (count x) same.nss_req) (acc x))

module _ {W : Type 0} (lib : Gpiod W) where
  pub open_chip-gpio_of :
      (radio : Radio) (o : Option ℕ) (s : State W)
      → gpio_of radio (open_chip lib o s).1 ≡ gpio_of radio s
  unfolding open_chip
  open_chip-gpio_of radio none s =
      chip-gpio_of radio s (lib.chip_open s.world).0 (lib.chip_open s.world).1
  open_chip-gpio_of radio (some _) s = refl

  keep_reset-gpio_of :
      (radio : Radio) (offset : ℕ) (s : State W) (o : Attempt × W)
      → gpio_of radio (keep_reset lib offset s o).1 ≡ gpio_of radio s
  unfolding keep_reset
  keep_reset-gpio_of radio offset s (unmade, w) = same_lines radio s w
  keep_reset-gpio_of radio offset s (made none, w) = shared-gpio_of radio s none s.g_reset_offset w
  keep_reset-gpio_of radio offset s (made (some q), w) = shared-gpio_of radio s (some q) offset w

  pub ensure_reset-gpio_of :
      (radio : Radio) (offset : ℕ) (o : Option ℕ) (s : State W)
      → gpio_of radio (ensure_reset lib o offset s).1 ≡ gpio_of radio s
  unfolding ensure_reset
  ensure_reset-gpio_of radio offset none s =
      keep_reset-gpio_of radio offset s
        (request_line lib s.g_gpio_chip output_active leos_sx126x_reset offset s.world)
  ensure_reset-gpio_of radio offset (some _) s = refl

  -- What holds of the failure and of the rest.
  pub unless_failed-cases :
      (P : ℕ × State W → Type 0) (p : ℕ × State W) (rest : State W → ℕ × State W)
      → P (1, p.1)
      → P (rest p.1)
      → P (unless_failed lib p rest)
  unfolding unless_failed
  unless_failed-cases P (zero, s) rest failed done = done
  unless_failed-cases P (suc _, s) rest failed done = failed

module _ {W : Type 0} (lib : Gpiod W) (books : W → Name → Books)
    (counts : (x : Name) → CountsObjects lib x (λ w. books w x)) (k : Name → ℕ) where
  request_all-Accounts :
      (ctx : Context) (s : State W)
      → (gpio_of ctx.radio s).busy_req ≡ none
      → IsAccounted books k s
      → Accounts books k ctx.radio s (request_all lib ctx s).1
  unfolding request_all reset_gpio_ensure
  request_all-Accounts ctx s eb acc =
      let r = ctx.radio in
      let g = record (gpio_of r s) {
        nss_offset = ctx.hw_config.pin_nss;
        busy_offset = ctx.hw_config.pin_busy;
      } in
      let t = set_gpio r g s in
      let u = (ensure_reset lib t.g_reset_req ctx.hw_config.pin_reset t).1 in
      let eq =
        ensure_reset-gpio_of lib r ctx.hw_config.pin_reset t.g_reset_req t
        ∙ set_gpio-gpio_of r g s in
      let acc' = ensure_reset-IsAccounted lib books counts k ctx.hw_config.pin_reset t (λ x.
        set_gpio-IsCounted x (λ w. books w x) (k x) (held x s + k x) r g s s.world (acc x)
          (omega arith)) in
      let same =
        SameRequests-trans
          (offsets-SameRequests (gpio_of r s) ctx.hw_config.pin_nss ctx.hw_config.pin_busy)
          (same_requests eq) in
      unless_failed-cases lib (λ (p : ℕ × State W). Accounts books k r s p.1)
        (ensure_reset lib t.g_reset_req ctx.hw_config.pin_reset t) (λ t. request_nss lib r t)
        (unchanged same acc')
        (Accounts-trans books k r s u _ same
          (request_nss-Accounts lib books counts k r u (same.busy_req ∙ eb) acc'))

  -- A radio whose lines are not all requested does not hold BUSY.
  abbrev pub BusyGoesLast : Radio → State W → Type 0
  BusyGoesLast radio s = (gpio_of radio s).requested ≡ false → (gpio_of radio s).busy_req ≡ none

  gpio_init_open-Accounts :
      (ctx : Context) (s : State W)
      → BusyGoesLast ctx.radio s
      → IsAccounted books k s
      → Accounts books k ctx.radio s (gpio_init_open lib ctx s).1
  unfolding gpio_init_open
  gpio_init_open-Accounts ctx s last acc =
      if_cases (λ (p : ℕ × State W). Accounts books k ctx.radio s p.1)
        (gpio_of ctx.radio s).requested (λ e. unchanged (same_requests refl) acc)
        (λ e. request_all-Accounts ctx s (last e) acc)

  -- The initialisation of a radio's lines, where an uninitialised radio does not hold BUSY and each
  -- object is alive as often as fields hold it and `k` times for others: on every path it frees the
  -- objects that it made, each at its own type and address, and makes no request that no field
  -- holds. Either the radio's requests stay and each open request is held as before, or they are
  -- replaced, and of those that were open the request for NSS that the radio held before, if any,
  -- and no other, is lost.
  pub gpio_init_ctx-Accounts :
      (ctx : Context) (s : State W)
      → BusyGoesLast ctx.radio s
      → IsAccounted books k s
      → Accounts books k ctx.radio s (gpio_init_ctx lib (some ctx) s).1
  unfolding gpio_init_ctx gpio_chip_open
  gpio_init_ctx-Accounts ctx s last acc =
      let r = ctx.radio in
      let t = (open_chip lib s.g_gpio_chip s).1 in
      let eq = open_chip-gpio_of lib r s.g_gpio_chip s in
      let acc' = open_chip-IsAccounted lib books counts k s.g_gpio_chip s acc in
      unless_failed-cases lib (λ (p : ℕ × State W). Accounts books k r s p.1)
        (open_chip lib s.g_gpio_chip s) (λ t. gpio_init_open lib ctx t)
        (unchanged (same_requests eq) acc')
        (Accounts-trans books k r s t _ (same_requests eq) (
          gpio_init_open-Accounts ctx t
            (λ e. ap (λ g. g.busy_req) eq ∙ last (sym (ap (λ g. g.requested) eq) ∙ e)) acc'))
