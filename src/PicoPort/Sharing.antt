-- ===== src/PicoPort/Sharing.antt =====
-- The SPI block that both radios share, over any sequence of calls.
use leos_sdk.Prelude.{
  ℕ, Bool, true, false, if_cases, ltb, ◌==◌, Option, none, some, List, [], ◌∷◌, Buffer, ◌≡◌, refl,
  ◌≢◌, ◌∙◌, ==_false,
}
use leos_sdk.Sx126x.Context.{Context}
use leos_sdk.PicoPort.Sdk.{Direction, Sdk, State}
use leos_sdk.PicoPort.Port.{
  set_up_spi, spi_hw_init, spi_hw_deinit, gpio_init_ctx, gpio_deinit_ctx, reset_write_ctx, written,
  was_read, read_after, spi_write_read_ctx, delay_ms, platform_idle, link_bus,
}

-- The calls of the port that change anything.
pub data Call : Type 0 where
  links : Context → Call
  spi_inits spi_deinits : Call
  gpio_inits gpio_deinits : Context → Call
  reset_writes : Context → ℕ → Call
  transfers : Option Context → Option Buffer → ℕ → Bool → ℕ → Call
  delays : ℕ → Call
  idles : Call

module _ {W : Type 0} (sdk : Sdk W) where
  unfoldable pub step : Call → State W → State W
  step (links ctx) s = link_bus ctx s
  step spi_inits s = (spi_hw_init sdk s).1
  step spi_deinits s = (spi_hw_deinit sdk s).1
  step (gpio_inits ctx) s = record s { world = (gpio_init_ctx sdk ctx s.world).1 }
  step (gpio_deinits ctx) s = record s { world = (gpio_deinit_ctx sdk ctx s.world).1 }
  step (reset_writes ctx value) s = record s { world = (reset_write_ctx sdk ctx value s.world).1 }
  step (transfers ctx in_buf in_len out out_len) s = record s {
    world = (spi_write_read_ctx sdk ctx in_buf in_len out out_len s).1;
  }
  step (delays ms) s = record s { world = delay_ms sdk ms s.world }
  step idles s = record s { world = platform_idle sdk s.world }

  unfoldable pub run : List Call → State W → State W
  run [] s = s
  run (c ∷ cs) s = run cs (step c s)

-- A context that is linked names the block.
abbrev pub NamesBlock : ℕ → Call → Type 0
NamesBlock block (links ctx) = ctx.hw_config.platform_spi ≡ block
NamesBlock block _ = Unit

abbrev pub AllNameBlock : ℕ → List Call → Type 0
AllNameBlock block [] = Unit
AllNameBlock block (c ∷ cs) = NamesBlock block c × AllNameBlock block cs

-- What the SDK documents: spi_init initialises its block, and the other calls leave a block as it is.
pub record KeepsBlocks {W : Type 0} (sdk : Sdk W) (up : ℕ → W → Bool) : Type 0 where
  pub spi_init : (p baud : ℕ) (w : W) → up p (sdk.spi_init p baud w) ≡ true
  pub spi_set_format : (q p : ℕ) (w : W) → up q (sdk.spi_set_format p w) ≡ up q w
  pub gpio_set_function_spi : (q p : ℕ) (w : W) → up q (sdk.gpio_set_function_spi p w) ≡ up q w
  pub gpio_init : (q p : ℕ) (w : W) → up q (sdk.gpio_init p w) ≡ up q w
  pub gpio_deinit : (q p : ℕ) (w : W) → up q (sdk.gpio_deinit p w) ≡ up q w
  pub gpio_set_dir : (q p : ℕ) (d : Direction) (w : W) → up q (sdk.gpio_set_dir p d w) ≡ up q w
  pub gpio_put : (q p : ℕ) (v : Bool) (w : W) → up q (sdk.gpio_put p v w) ≡ up q w
  pub spi_write_blocking :
      (q p : ℕ) (buf : Buffer) (len : ℕ) (w : W)
      → up q (sdk.spi_write_blocking p buf len w).1 ≡ up q w
  pub spi_read_blocking : (q p len : ℕ) (w : W) → up q (sdk.spi_read_blocking p len w).1 ≡ up q w
  pub sleep_ms : (q ms : ℕ) (w : W) → up q (sdk.sleep_ms ms w) ≡ up q w
  pub tight_loop_contents : (q : ℕ) (w : W) → up q (sdk.tight_loop_contents w) ≡ up q w

module _ {W : Type 0} where
  -- A bus that is marked as initialised is on the block, and the block is initialised.
  pub record IsServed (up : ℕ → W → Bool) (block : ℕ) (s : State W) : Type 0 where
    pub port : s.g_spi_port ≢ 0 → s.g_spi_port ≡ block
    pub marked : s.g_spi_initialized ≡ true → (s.g_spi_port ≡ block) × (up block s.world ≡ true)

module _ {W : Type 0} (sdk : Sdk W) (up : ℕ → W → Bool) (keeps : KeepsBlocks sdk up) where
  in_world-IsServed :
      (block : ℕ) (s : State W) (w : W)
      → up block w ≡ up block s.world
      → IsServed up block s
      → IsServed up block (record s { world = w })
  in_world-IsServed block s w e served = record {
    port = served.port;
    marked = λ m. ((served.marked m).0, e ∙ (served.marked m).1);
  }

  set_up_spi-IsServed :
      (block : ℕ) (s : State W) → s.g_spi_port ≡ block → IsServed up block (set_up_spi sdk s)
  unfolding set_up_spi
  set_up_spi-IsServed block s e = record {
    port = λ _. e;
    marked = λ _. (
      e,
      rw (← e) (simp (keeps.gpio_set_function_spi, keeps.spi_set_format, keeps.spi_init) refl),
    );
  }

  spi_hw_init-IsServed :
      (block : ℕ) (s : State W) → IsServed up block s → IsServed up block (spi_hw_init sdk s).1
  unfolding spi_hw_init
  spi_hw_init-IsServed block s served =
      if_cases (λ (p : ℕ × State W). IsServed up block p.1) s.g_spi_initialized (λ _. served)
        (λ _.
          if_cases (λ (p : ℕ × State W). IsServed up block p.1) (s.g_spi_port == 0) (λ _. served)
            (λ e. set_up_spi-IsServed block s (served.port (==_false s.g_spi_port 0 e))))

  written-up :
      (q : ℕ) (in_buf : Option Buffer) (len port : ℕ) (w : W)
      → up q (written sdk in_buf len port w).1 ≡ up q w
  written-up q none len port w = refl
  written-up q (some buf) len port w =
      if_cases (λ (p : Bool × W). up q p.1 ≡ up q w) (ltb 0 len)
        (λ _. keeps.spi_write_blocking q port buf len w) (λ _. refl)

  was_read-up :
      (q : ℕ) (out : Bool) (len port : ℕ) (w : W) → up q (was_read sdk out len port w).1 ≡ up q w
  was_read-up q false len port w = refl
  was_read-up q true len port w =
      if_cases (λ (p : Bool × W). up q p.1 ≡ up q w) (ltb 0 len)
        (λ _. keeps.spi_read_blocking q port len w) (λ _. refl)

  read_after-up :
      (q nss : ℕ) (out : Bool) (len port : ℕ) (p : Bool × W)
      → up q (read_after sdk nss out len port p).1 ≡ up q p.1
  read_after-up q nss out len port (false, w) = keeps.gpio_put q nss true w
  read_after-up q nss out len port (true, w) =
      keeps.gpio_put q nss true (was_read sdk out len port w).1 ∙ was_read-up q out len port w

  spi_write_read_ctx-up :
      (q : ℕ) (ctx : Option Context) (in_buf : Option Buffer) (in_len : ℕ) (out : Bool)
      (out_len : ℕ) (s : State W)
      → up q (spi_write_read_ctx sdk ctx in_buf in_len out out_len s).1 ≡ up q s.world
  unfolding spi_write_read_ctx
  spi_write_read_ctx-up q none in_buf in_len out out_len s = refl
  spi_write_read_ctx-up q (some ctx) in_buf in_len out out_len s =
      let nss = ctx.hw_config.pin_nss in
      let w = sdk.gpio_put nss false s.world in
      read_after-up q nss out out_len s.g_spi_port (written sdk in_buf in_len s.g_spi_port w)
      ∙ written-up q in_buf in_len s.g_spi_port w
      ∙ keeps.gpio_put q nss false s.world

  gpio_init_ctx-up : (q : ℕ) (ctx : Context) (w : W) → up q (gpio_init_ctx sdk ctx w).1 ≡ up q w
  unfolding gpio_init_ctx
  gpio_init_ctx-up q ctx w = simp (keeps.gpio_init, keeps.gpio_set_dir, keeps.gpio_put) refl

  gpio_deinit_ctx-up : (q : ℕ) (ctx : Context) (w : W) → up q (gpio_deinit_ctx sdk ctx w).1 ≡ up q w
  unfolding gpio_deinit_ctx
  gpio_deinit_ctx-up q ctx w = simp (keeps.gpio_deinit) refl

  step-IsServed :
      (block : ℕ) (c : Call) (s : State W)
      → NamesBlock block c
      → IsServed up block s
      → IsServed up block (step sdk c s)
  unfolding step link_bus spi_hw_deinit reset_write_ctx delay_ms platform_idle
  step-IsServed block (links ctx) s e served = record {
    port = λ _. e;
    marked = λ m. (e, (served.marked m).1);
  }
  step-IsServed block spi_inits s uses served = spi_hw_init-IsServed block s served
  step-IsServed block spi_deinits s uses served = served
  step-IsServed block (gpio_inits ctx) s uses served =
      in_world-IsServed block s _ (gpio_init_ctx-up block ctx s.world) served
  step-IsServed block (gpio_deinits ctx) s uses served =
      in_world-IsServed block s _ (gpio_deinit_ctx-up block ctx s.world) served
  step-IsServed block (reset_writes ctx value) s uses served =
      in_world-IsServed block s _ (keeps.gpio_put block ctx.hw_config.pin_reset _ s.world) served
  step-IsServed block (transfers ctx in_buf in_len out out_len) s uses served =
      in_world-IsServed block s _ (spi_write_read_ctx-up block ctx in_buf in_len out out_len s)
        served
  step-IsServed block (delays ms) s uses served =
      in_world-IsServed block s _ (keeps.sleep_ms block ms s.world) served
  step-IsServed block idles s uses served =
      in_world-IsServed block s _ (keeps.tight_loop_contents block s.world) served

  -- Where every linked context names the same SPI block, a bus that is not marked as initialised,
  -- or that is on this block with the block initialised, stays so over any sequence of calls.
  pub run-IsServed :
      (block : ℕ) (cs : List Call) (s : State W)
      → AllNameBlock block cs
      → IsServed up block s
      → IsServed up block (run sdk cs s)
  unfolding run
  run-IsServed block [] s named served = served
  run-IsServed block (c ∷ cs) s (named, rest) served =
      run-IsServed block cs (step sdk c s) rest (step-IsServed block c s named served)

module _ {W : Type 0} (sdk : Sdk W) where
  spi_hw_init_unmarked :
      (s : State W)
      → s.g_spi_initialized ≡ false
      → (s.g_spi_port == 0) ≡ false
      → spi_hw_init sdk s ≡ (0, set_up_spi sdk s)
  unfolding spi_hw_init
  spi_hw_init_unmarked s e named = rw (e, named) refl

  -- The bus is initialised with the block of one context, and then the handle of another context
  -- is linked, whose block may differ: its spi_init answers 0 and does nothing, and transfers use
  -- the second block.
  pub spi_hw_init_second :
      (first second : Context) (s : State W)
      → s.g_spi_initialized ≡ false
      → (first.hw_config.platform_spi == 0) ≡ false
      → let t = (spi_hw_init sdk (link_bus first s)).1 in
        spi_hw_init sdk (link_bus second t) ≡ (0, link_bus second t)
        × (link_bus second t).g_spi_port ≡ second.hw_config.platform_spi
        × (link_bus second t).world ≡ (set_up_spi sdk (link_bus first s)).world
  unfolding spi_hw_init link_bus set_up_spi
  spi_hw_init_second first second s e named =
      rw (spi_hw_init_unmarked (link_bus first s) e named) (refl, refl, refl)
