-- ===== src/LinuxPort/Lines.antt =====
-- The requests of GPIO lines.
use leos_sdk.Prelude.{ℕ, zero, suc, true, false, if◌then◌else◌, ◌==◌, Option, none, some}
use leos_sdk.Sx126x.Types.{Radio}
use leos_sdk.Sx126x.Context.{Context}
use leos_sdk.LinuxPort.Gpiod.{
  Direction, output_active, input, Consumer, leos_sx126x_reset, leos_sx126x_nss, leos_sx126x_busy,
  Gpiod, Gpio, State,
}

-- `(ctx->radio == LEOS_RADIO_SX1262) ? &g_sx1262_gpio : &g_sx1268_gpio`, read and written.
unfoldable pub gpio_of : {W : Type 0} → Radio → State W → Gpio
gpio_of Radio.sx1262 s = s.g_sx1262_gpio
gpio_of Radio.sx1268 s = s.g_sx1268_gpio
gpio_of (Radio.other _) s = s.g_sx1268_gpio

unfoldable pub set_gpio : {W : Type 0} → Radio → Gpio → State W → State W
set_gpio Radio.sx1262 g s = record s { g_sx1262_gpio = g }
set_gpio Radio.sx1268 g s = record s { g_sx1268_gpio = g }
set_gpio (Radio.other _) g s = record s { g_sx1268_gpio = g }

-- How far a request came: an object for it could not be made, or it was made, with its result.
pub data Attempt : Type 0 where
  unmade : Attempt
  made : Option ℕ → Attempt

module _ {W : Type 0} (lib : Gpiod W) where
  -- The sequence that requests one line, which stands three times in the source.
  unfoldable pub request_with : Option ℕ → Consumer → ℕ → Option ℕ × W → Attempt × W
  request_with chip consumer line_cfg (none, w) = (unmade, lib.line_config_free line_cfg w)
  request_with chip consumer line_cfg (some req_cfg, w) =
      let (request, w') =
        lib.request_lines chip req_cfg line_cfg (lib.set_consumer req_cfg consumer w) in
      (made request, lib.line_config_free line_cfg (lib.request_config_free req_cfg w'))

  unfoldable pub config_with : Option ℕ → Consumer → ℕ → ℕ → Option ℕ × W → Attempt × W
  unfolding request_with
  config_with chip consumer offset settings (none, w) = (unmade, lib.line_settings_free settings w)
  config_with chip consumer offset settings (some line_cfg, w) =
      request_with chip consumer line_cfg (
        lib.request_config_new
          (lib.line_settings_free settings (lib.add_line_settings line_cfg offset settings w)))

  unfoldable pub settings_with : Option ℕ → Direction → Consumer → ℕ → Option ℕ × W → Attempt × W
  unfolding config_with
  settings_with chip direction consumer offset (none, w) = (unmade, w)
  settings_with chip direction consumer offset (some settings, w) =
      config_with chip consumer offset settings
        (lib.line_config_new (lib.line_settings_set settings direction w))

  unfoldable pub request_line : Option ℕ → Direction → Consumer → ℕ → W → Attempt × W
  unfolding settings_with
  request_line chip direction consumer offset w =
      settings_with chip direction consumer offset (lib.line_settings_new w)

  -- 0 if the chip is open now, else 1.
  abbrev pub is_set : Option ℕ → ℕ
  is_set none = 1
  is_set (some _) = 0

  unfoldable pub open_chip : Option ℕ → State W → ℕ × State W
  open_chip (some _) s = (0, s)
  open_chip none s =
      let (chip, w) = lib.chip_open s.world in
      (is_set chip, record s { g_gpio_chip = chip; world = w })

  unfoldable pub gpio_chip_open : State W → ℕ × State W
  unfolding open_chip
  gpio_chip_open s = open_chip s.g_gpio_chip s

  -- `g_reset_req` was NULL, and the offset is kept on success only.
  unfoldable pub keep_reset : ℕ → State W → Attempt × W → ℕ × State W
  keep_reset offset s (unmade, w) = (1, record s { world = w })
  keep_reset offset s (made none, w) = (1, record s { g_reset_req = none; world = w })
  keep_reset offset s (made (some request), w) =
      (0, record s { g_reset_req = some request; g_reset_offset = offset; world = w })

  unfoldable pub ensure_reset : Option ℕ → ℕ → State W → ℕ × State W
  unfolding keep_reset
  ensure_reset (some _) offset s = (if s.g_reset_offset == offset then 0 else 1, s)
  ensure_reset none offset s =
      keep_reset offset s
        (request_line s.g_gpio_chip output_active leos_sx126x_reset offset s.world)

  unfoldable pub reset_gpio_ensure : ℕ → State W → ℕ × State W
  unfolding ensure_reset
  reset_gpio_ensure offset s = ensure_reset s.g_reset_req offset s

  -- The request of BUSY. A request that is refused releases NSS; one that could not be made leaves
  -- NSS requested.
  unfoldable pub keep_busy : Radio → ℕ → State W → Attempt × W → ℕ × State W
  unfolding gpio_of set_gpio
  keep_busy radio nss s (unmade, w) = (1, record s { world = w })
  keep_busy radio nss s (made none, w) =
      let g = gpio_of radio s in
      (
        1,
        set_gpio radio (record g { busy_req = none; nss_req = none })
            (record s { world = lib.request_release nss w }),
      )
  keep_busy radio nss s (made (some busy), w) =
      let g = gpio_of radio s in
      (
        0,
        set_gpio radio (record g { busy_req = some busy; requested = true })
            (record s { world = w }),
      )

  unfoldable pub request_busy : Radio → ℕ → State W → ℕ × State W
  unfolding keep_busy gpio_of
  request_busy radio nss s =
      keep_busy radio nss s
        (request_line s.g_gpio_chip input leos_sx126x_busy (gpio_of radio s).busy_offset s.world)

  -- The request of NSS.
  unfoldable pub keep_nss : Radio → State W → Attempt × W → ℕ × State W
  unfolding request_busy gpio_of set_gpio
  keep_nss radio s (unmade, w) = (1, record s { world = w })
  keep_nss radio s (made none, w) =
      let g = gpio_of radio s in
      (1, set_gpio radio (record g { nss_req = none }) (record s { world = w }))
  keep_nss radio s (made (some nss), w) =
      let g = gpio_of radio s in
      request_busy radio nss
        (set_gpio radio (record g { nss_req = some nss }) (record s { world = w }))

  unfoldable pub request_nss : Radio → State W → ℕ × State W
  unfolding keep_nss gpio_of
  request_nss radio s = keep_nss radio s (
      request_line s.g_gpio_chip output_active leos_sx126x_nss (gpio_of radio s).nss_offset s.world)

  -- `if (...() != 0u) return 1;`
  unfoldable pub unless_failed : ℕ × State W → (State W → ℕ × State W) → ℕ × State W
  unless_failed (zero, s) rest = rest s
  unless_failed (suc _, s) rest = (1, s)

  -- With the offsets set, RESET, NSS and BUSY.
  unfoldable pub request_all : Context → State W → ℕ × State W
  unfolding gpio_of set_gpio unless_failed request_nss
  request_all ctx s =
      let g = gpio_of ctx.radio s in
      let g' = record g {
        nss_offset = ctx.hw_config.pin_nss;
        busy_offset = ctx.hw_config.pin_busy;
      } in
      unless_failed (reset_gpio_ensure ctx.hw_config.pin_reset (set_gpio ctx.radio g' s))
        (λ t. request_nss ctx.radio t)

  unfoldable pub gpio_init_open : Context → State W → ℕ × State W
  unfolding request_all gpio_of
  gpio_init_open ctx s = if (gpio_of ctx.radio s).requested then (0, s) else request_all ctx s

  unfoldable pub gpio_init_ctx : Option Context → State W → ℕ × State W
  unfolding gpio_init_open gpio_chip_open unless_failed
  gpio_init_ctx none s = (1, s)
  gpio_init_ctx (some ctx) s = unless_failed (gpio_chip_open s) (λ t. gpio_init_open ctx t)

  -- `if (req != NULL) gpiod_line_request_release(req);`
  unfoldable pub release : Option ℕ → W → W
  release none w = w
  release (some request) w = lib.request_release request w

  unfoldable pub gpio_deinit_ctx : Option Context → State W → ℕ × State W
  unfolding release gpio_of set_gpio
  gpio_deinit_ctx none s = (1, s)
  gpio_deinit_ctx (some ctx) s =
      let g = gpio_of ctx.radio s in
      (
        0,
        set_gpio ctx.radio (record g { busy_req = none; nss_req = none; requested = false })
            (record s { world = release g.nss_req (release g.busy_req s.world) }),
      )
