-- ===== src/LinuxPort/Outcome.antt =====
-- What the answer of an initialisation says of the radio's requests.
use leos_sdk.Prelude.{ℕ, true, false, if_cases, none, some, ◌≡◌, refl, ap, ◌∙◌, arith}
use leos_sdk.Sx126x.Types.{Radio}
use leos_sdk.Sx126x.Context.{Context}
use leos_sdk.LinuxPort.Gpiod.{
  output_active, input, leos_sx126x_nss, leos_sx126x_busy, Gpiod, Gpio, State,
}
use leos_sdk.LinuxPort.Lines.{
  gpio_of, set_gpio, Attempt, unmade, made, request_line, open_chip, gpio_chip_open, ensure_reset,
  reset_gpio_ensure, keep_busy, request_busy, keep_nss, request_nss, request_all, gpio_init_open,
  gpio_init_ctx,
}
use leos_sdk.LinuxPort.Ownership.{
  IsReleased, SameRequests, same_requests, same_lines, set_gpio-gpio_of,
}
use leos_sdk.LinuxPort.Initialisation.{
  SameRequests-trans, offsets-SameRequests, open_chip-gpio_of, ensure_reset-gpio_of,
  unless_failed-cases,
}

-- The requests of one radio, and the answer that goes with them.
pub data Outcome : ℕ → Gpio → Type 0 where
  ready :
      (g : Gpio) (nss busy : ℕ)
      → g.nss_req ≡ some nss
      → g.busy_req ≡ some busy
      → g.requested ≡ true
      → Outcome 0 g
  released : (g : Gpio) → g.nss_req ≡ none → g.busy_req ≡ none → g.requested ≡ false → Outcome 1 g
  -- An object for the request of BUSY could not be made.
  stranded :
      (g : Gpio) (nss : ℕ)
      → g.nss_req ≡ some nss
      → g.busy_req ≡ none
      → g.requested ≡ false
      → Outcome 1 g

module _ {W : Type 0} where
  abbrev pub Ends : Radio → ℕ × State W → Type 0
  Ends radio p = Outcome p.0 (gpio_of radio p.1)

module _ {W : Type 0} (lib : Gpiod W) where
  keep_busy-Ends :
      (radio : Radio) (nss : ℕ) (s : State W) (o : Attempt × W)
      → (gpio_of radio s).nss_req ≡ some nss
      → (gpio_of radio s).busy_req ≡ none
      → (gpio_of radio s).requested ≡ false
      → Ends radio (keep_busy lib radio nss s o)
  unfolding keep_busy
  keep_busy-Ends radio nss s (unmade, w) en eb er =
      rw (same_lines radio s w) (stranded _ nss en eb er)
  keep_busy-Ends radio nss s (made none, w) en eb er =
      rw
        (set_gpio-gpio_of radio (record (gpio_of radio s) { busy_req = none; nss_req = none })
          (record s { world = lib.request_release nss w }))
        (released _ refl refl er)
  keep_busy-Ends radio nss s (made (some busy), w) en eb er =
      rw
        (set_gpio-gpio_of radio
          (record (gpio_of radio s) { busy_req = some busy; requested = true })
          (record s { world = w }))
        (ready _ nss busy en refl refl)

  keep_nss-Ends :
      (radio : Radio) (s : State W) (o : Attempt × W)
      → IsReleased radio s
      → Ends radio (keep_nss lib radio s o)
  unfolding keep_nss request_busy
  keep_nss-Ends radio s (unmade, w) free =
      rw (same_lines radio s w) (released _ free.nss_none free.busy_none free.not_requested)
  keep_nss-Ends radio s (made none, w) free =
      rw
        (set_gpio-gpio_of radio (record (gpio_of radio s) { nss_req = none })
          (record s { world = w }))
        (released _ refl free.busy_none free.not_requested)
  keep_nss-Ends radio s (made (some nss), w) free =
      let g = record (gpio_of radio s) { nss_req = some nss } in
      let t = set_gpio radio g (record s { world = w }) in
      let same = set_gpio-gpio_of radio g (record s { world = w }) in
      keep_busy-Ends radio nss t
        (request_line lib t.g_gpio_chip input leos_sx126x_busy (gpio_of radio t).busy_offset
          t.world)
        (ap (λ g. g.nss_req) same) (ap (λ g. g.busy_req) same ∙ free.busy_none)
        (ap (λ g. g.requested) same ∙ free.not_requested)

  -- A radio with the same requests is released too.
  IsReleased-SameRequests :
      (radio : Radio) (s t : State W)
      → SameRequests (gpio_of radio s) (gpio_of radio t)
      → IsReleased radio s
      → IsReleased radio t
  IsReleased-SameRequests radio s t same free = record {
    nss_none = same.nss_req ∙ free.nss_none;
    busy_none = same.busy_req ∙ free.busy_none;
    not_requested = same.requested ∙ free.not_requested;
  }

  fails : (radio : Radio) (t : State W) → IsReleased radio t → Ends radio (1, t)
  fails radio t free = released _ free.nss_none free.busy_none free.not_requested

  request_all-Ends :
      (ctx : Context) (s : State W)
      → IsReleased ctx.radio s
      → Ends ctx.radio (request_all lib ctx s)
  unfolding request_all reset_gpio_ensure request_nss
  request_all-Ends ctx s free =
      let r = ctx.radio in
      let g = record (gpio_of r s) {
        nss_offset = ctx.hw_config.pin_nss;
        busy_offset = ctx.hw_config.pin_busy;
      } in
      let t = set_gpio r g s in
      let u = (ensure_reset lib t.g_reset_req ctx.hw_config.pin_reset t).1 in
      let eq =
        ensure_reset-gpio_of lib r ctx.hw_config.pin_reset t.g_reset_req t
        ∙ set_gpio-gpio_of r g s in
      let free' =
        IsReleased-SameRequests r s u
          (SameRequests-trans
            (offsets-SameRequests (gpio_of r s) ctx.hw_config.pin_nss ctx.hw_config.pin_busy)
            (same_requests eq))
          free in
      unless_failed-cases lib (λ (p : ℕ × State W). Ends r p)
        (ensure_reset lib t.g_reset_req ctx.hw_config.pin_reset t) (λ t. request_nss lib r t)
        (fails r u free')
        (keep_nss-Ends r u
          (request_line lib u.g_gpio_chip output_active leos_sx126x_nss (gpio_of r u).nss_offset
            u.world)
          free')

  gpio_init_open-Ends :
      (ctx : Context) (s : State W)
      → IsReleased ctx.radio s
      → Ends ctx.radio (gpio_init_open lib ctx s)
  unfolding gpio_init_open
  gpio_init_open-Ends ctx s free =
      if_cases (λ (p : ℕ × State W). Ends ctx.radio p) (gpio_of ctx.radio s).requested
        (λ e. absurd (ground arith)) (λ _. request_all-Ends ctx s free)

  -- The initialisation of a radio that holds nothing ends in one of three ways. It answers 0, and
  -- the radio has both its requests; it answers 1, and the radio holds nothing, as before; or it
  -- answers 1, and the radio holds NSS and not BUSY.
  pub gpio_init_ctx-Ends :
      (ctx : Context) (s : State W)
      → IsReleased ctx.radio s
      → Ends ctx.radio (gpio_init_ctx lib (some ctx) s)
  unfolding gpio_init_ctx gpio_chip_open
  gpio_init_ctx-Ends ctx s free =
      let r = ctx.radio in
      let t = (open_chip lib s.g_gpio_chip s).1 in
      let free' =
        IsReleased-SameRequests r s t (same_requests (open_chip-gpio_of lib r s.g_gpio_chip s))
          free in
      unless_failed-cases lib (λ (p : ℕ × State W). Ends r p) (open_chip lib s.g_gpio_chip s)
        (λ t. gpio_init_open lib ctx t) (fails r t free') (gpio_init_open-Ends ctx t free')
