-- ===== src/LinuxPort/Bus.antt =====
-- The SPI bus, the RESET and BUSY lines and the clock.
use leos_sdk.Prelude.{
  ℕ, zero, ◌+◌, ◌*◌, ◌/◌, ◌%◌, ◌^◌, Bool, true, false, not, if◌then◌else◌, ltb, ◌==◌, Option, none,
  some, List, [], ◌∷◌, ◌++◌, Buffer,
}
use leos_sdk.Prelude.Int.{ℤ, pos, negsuc, is_negative}
use leos_sdk.Sx126x.Context.{Context}
use leos_sdk.LinuxPort.Gpiod.{Transfer, sends, receives, Gpiod, State}
use leos_sdk.LinuxPort.Lines.{gpio_of}

module _ {W : Type 0} (lib : Gpiod W) where
  -- A context, and so its `platform_spi`, may be NULL.
  unfoldable pub spi_fd : Option Context → W → ℤ
  spi_fd none w = negsuc 0
  spi_fd (some ctx) w =
      if ctx.hw_config.platform_spi == 0 then negsuc 0 else lib.read_fd ctx.hw_config.platform_spi w

  -- A call that fails stops the rest.
  abbrev pub checked : ℤ × W → (W → ℕ × W) → ℕ × W
  checked (result, w) rest = if is_negative result then (1, w) else rest w

  unfoldable pub set_up_spi : ℤ → ℕ → W → ℕ × W
  set_up_spi fd speed w = checked (lib.spi_set_mode fd w) (λ w.
      checked (lib.spi_set_bits_per_word fd w)
        (λ w. checked (lib.spi_set_max_speed fd speed w) (λ w. (0, w))))

  unfoldable pub spi_hw_init : Option Context → W → ℕ × W
  unfolding spi_fd set_up_spi
  spi_hw_init none w = (1, w)
  spi_hw_init (some ctx) w =
      let fd = spi_fd (some ctx) w in
      if is_negative fd then (1, w) else set_up_spi fd ctx.hw_config.spi_baud_hz w

  unfoldable pub spi_hw_deinit : W → ℕ × W
  spi_hw_deinit w = (0, w)

  -- The transfer of a buffer that is there and of bytes that are wanted.
  unfoldable pub sent : Option Buffer → ℕ → ℕ → List Transfer
  sent none len speed = []
  sent (some buf) len speed = if ltb 0 len then sends buf len speed ∷ [] else []

  unfoldable pub received : Bool → ℕ → ℕ → List Transfer
  received false len speed = []
  received true len speed = if ltb 0 len then receives len speed ∷ [] else []

  -- With NSS low: the message, and NSS high again; after a message that failed, whatever that
  -- answers.
  unfoldable pub message : ℤ → ℕ → ℕ → List Transfer → W → ℕ × W
  message fd nss offset transfers w =
      let (result, w') = lib.spi_message fd transfers w in
      let (raised, w'') = lib.set_value nss offset true w' in
      (if is_negative result then 1 else if is_negative raised then 1 else 0, w'')

  unfoldable pub select : ℤ → ℕ → ℕ → List Transfer → W → ℕ × W
  unfolding message
  select fd nss offset transfers w =
      checked (lib.set_value nss offset false w) (λ w. message fd nss offset transfers w)

  unfoldable pub exchange : ℤ → ℕ → ℕ → List Transfer → W → ℕ × W
  unfolding select
  exchange fd nss offset [] w = (0, w)
  exchange fd nss offset (t ∷ ts) w = select fd nss offset (t ∷ ts) w

  -- `out` says whether out_buf is there.
  unfoldable pub write_read_with : Context → Option ℕ → ℕ → Option Buffer → ℕ → Bool → ℕ → W → ℕ × W
  unfolding exchange sent received spi_fd
  write_read_with ctx none offset in_buf in_len out out_len w = (1, w)
  write_read_with ctx (some nss) offset in_buf in_len out out_len w =
      let fd = spi_fd (some ctx) w in
      let speed = ctx.hw_config.spi_baud_hz in
      if is_negative fd
      then (1, w)
      else exchange fd nss offset (sent in_buf in_len speed ++ received out out_len speed) w

  -- A function of the world on the state.
  abbrev pub in_world : State W → ℕ × W → ℕ × State W
  in_world s (r, w) = (r, record s { world = w })

  unfoldable pub spi_write_read_ctx :
      Option Context → Option Buffer → ℕ → Bool → ℕ → State W → ℕ × State W
  unfolding write_read_with gpio_of
  spi_write_read_ctx none in_buf in_len out out_len s = (1, s)
  spi_write_read_ctx (some ctx) in_buf in_len out out_len s =
      let g = gpio_of ctx.radio s in
      in_world s (write_read_with ctx g.nss_req g.nss_offset in_buf in_len out out_len s.world)

  unfoldable pub reset_with : Option ℕ → ℕ → ℕ → W → ℕ × W
  reset_with none offset value w = (1, w)
  reset_with (some request) offset value w =
      let (result, w') = lib.set_value request offset (not (value == 0)) w in
      (elim result [ pos zero ↦ 0 | _ ↦ 1 ], w')

  -- The context is not used.
  unfoldable pub reset_write_ctx : Option Context → ℕ → State W → ℕ × State W
  unfolding reset_with
  reset_write_ctx ctx value s = in_world s (reset_with s.g_reset_req s.g_reset_offset value s.world)

  -- The result, and what is stored through a value pointer that is not NULL.
  abbrev pub line_level : ℤ → ℕ × Option ℕ
  line_level (negsuc n) = (1, none)
  line_level (pos n) = (0, some (if n == 1 then 1 else 0))

  unfoldable pub busy_with : Option ℕ → ℕ → Bool → W → (ℕ × Option ℕ) × W
  busy_with none offset value w = ((1, none), w)
  busy_with (some request) offset false w = ((1, none), w)
  busy_with (some request) offset true w =
      let (rc, w') = lib.get_value request offset w in (line_level rc, w')

  unfoldable pub busy_read_ctx : Option Context → Bool → State W → (ℕ × Option ℕ) × State W
  unfolding busy_with gpio_of
  busy_read_ctx none value s = ((1, none), s)
  busy_read_ctx (some ctx) value s =
      let g = gpio_of ctx.radio s in
      let (r, w) = busy_with g.busy_req g.busy_offset value s.world in (r, record s { world = w })

  unfoldable pub delay_ms : ℕ → W → W
  delay_ms ms w = lib.usleep (ms * 1000 % 2 ^ 32) w

  -- 0 where the clock cannot be read.
  unfoldable pub now_ms : W → ℕ
  now_ms w =
      let (result, sec, nsec) = lib.clock_gettime w in
      elim result [ pos zero ↦ (sec * 1000 + nsec / 1000000) % 2 ^ 64 | _ ↦ 0 ]

  unfoldable pub platform_idle : W → W
  platform_idle w = lib.usleep 1000 w
