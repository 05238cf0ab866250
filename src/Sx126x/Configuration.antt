-- ===== src/Sx126x/Configuration.antt =====
-- What init and apply_config promise.
use Prim.Native.Nat.{bit_or}
use leos_sdk.Prelude.{
  ℕ, ◌+◌, ◌*◌, ◌^◌, ◌<◌, Bool, true, false, ◌&&◌, ◌≡◌, ◌≢◌, refl, ap, arith, leb, ◌==◌, ==_iff, not,
  is_null, Option, none, some, if_cases,
}
use leos_sdk.Prelude.Words.{holds_until, holds_until_at}
use leos_sdk.Sx126x.Types.{
  Status, ok, err_arg, uninit, standby, HwConfig, Config, Bandwidth, bw_125_khz, bw_250_khz,
  bw_500_khz, bw_7_khz, SpreadingFactor, sf_5, sf_6, sf_7, sf_8, sf_9, sf_10, sf_11, sf_12,
}
use leos_sdk.Sx126x.Vendor.{Command, Driver}
use leos_sdk.Sx126x.Context.{Context, State, Result, value, stop, exec, command}
use leos_sdk.Sx126x.Convert.{
  to_vendor_sf, to_vendor_bw, to_vendor_cr, low_data_rate_for, low_data_rate_optimize,
}
use leos_sdk.Sx126x.Frame.{
  kept, kept-after, kept-command, command-ne-stop_ok, Keeps-apply, Keeps-honest,
}
use leos_sdk.Sx126x.Setup.{
  sync_register, reset_context, linked, apply_config, finish_init, after_vendor_init, init_ctx,
}
use leos_sdk.Sx126x.Invariant.Keeps.{Keeps-apply_config}

-- The settings have a vendor equivalent.
abbrev pub is_supported : Config → Bool
is_supported cfg =
    not (is_null (to_vendor_sf cfg.spreading_factor))
    && not (is_null (to_vendor_bw cfg.bandwidth))
    && not (is_null (to_vendor_cr cfg.coding_rate))

-- What init leaves behind, by the status that it answers.
pub record Initialized (hw : HwConfig) (cfg : Config) (status : Status) (c : Context) : Type 0 where
  pub set_up :
      status ≡ ok
      → (c.initialized ≡ true)
        × (c.mode ≡ standby)
        × (c.hw_config ≡ hw)
        × (c.config ≡ cfg)
        × (c.tx_in_flight ≡ false)
        × (c.rx_pending ≡ false)
        × (c.rx_overrun ≡ false)
  pub undone : status ≢ ok → (c.initialized ≡ false) × (c.mode ≡ uninit)

module _ {W F : Type 0} (d : Driver W F) where
  -- Settings that no vendor value stands for are refused before any call of the vendor library,
  -- and nothing changes.
  pub apply_config_unsupported :
      (s : State W) → is_supported s.ctx.config ≡ false → apply_config d s ≡ (stop err_arg, s)
  unfolding apply_config
  apply_config_unsupported s h = ground arith

  module _ (hw : HwConfig) (cfg : Config) (c : Context) (off : c.initialized ≡ false) where
    finish_init-Initialized :
        (r : Result (Unit {0})) (s : State W)
        → r ≢ stop ok
        → kept s.ctx ≡ kept (let c' = reset_context hw cfg c in record c' { initialized = true })
        → let (status, t) = finish_init d (r, s) in Initialized hw cfg status t.ctx
    unfolding finish_init reset_context
    finish_init-Initialized (value a) s honest same = ground arith
    finish_init-Initialized (stop e) s honest same =
        let e-ne-ok : e ≢ ok = λ q. honest (ap stop q) in
        ground (arith, kept-after d (exec d Command.deinit s) s)

    after_vendor_init-Initialized :
        (r : Result ℕ) (s : State W)
        → r ≢ stop ok
        → kept s.ctx ≡ kept (reset_context hw cfg c)
        → let (status, t) = after_vendor_init d (r, s) in Initialized hw cfg status t.ctx
    unfolding after_vendor_init
    after_vendor_init-Initialized (stop e) s honest same =
        let e-ne-ok : e ≢ ok = λ q. honest (ap stop q) in unfold reset_context in ground arith
    after_vendor_init-Initialized (value a) s honest same =
        let c' = s.ctx in
        let t = record s { ctx = record c' { initialized = true } } in
        let (r, u) = apply_config d t in
        finish_init-Initialized r u (Keeps-honest W _ (Keeps-apply_config d) t)
          (ground (arith, Keeps-apply W (apply_config d) (Keeps-apply_config d) t))

  -- init of a radio that is not initialized ends in one of two ways, whatever call of the vendor
  -- library fails: OK, with the radio in STANDBY, both configurations stored, nothing in flight
  -- and no packet pending; or an error, with the radio uninitialized in mode UNINIT.
  pub init_ctx-Initialized :
      (hw : HwConfig) (cfg : Config) (s : State W)
      → s.ctx.initialized ≡ false
      → let (status, t) = init_ctx d hw cfg s in Initialized hw cfg status t.ctx
  unfolding init_ctx linked
  init_ctx-Initialized hw cfg s off =
      let t = linked d hw cfg s in
      let (r, u) = command d Command.init t in
      if_cases (λ (x : Status × State W). Initialized hw cfg x.0 x.1.ctx) s.ctx.initialized
        (λ on. cc)
        (λ _.
          after_vendor_init-Initialized hw cfg s.ctx off r u (command-ne-stop_ok d Command.init t)
            (kept-command d Command.init t))

-- The bandwidths for which the rule is stated, in kHz.
abbrev pub wide_khz : Bandwidth → Option ℕ
wide_khz bw_125_khz = some 125
wide_khz bw_250_khz = some 250
wide_khz bw_500_khz = some 500
wide_khz _ = none

abbrev pub factor : SpreadingFactor → ℕ
factor sf_5 = 5
factor sf_6 = 6
factor sf_7 = 7
factor sf_8 = 8
factor sf_9 = 9
factor sf_10 = 10
factor sf_11 = 11
factor sf_12 = 12
factor (SpreadingFactor.other _) = 0

-- A LoRa symbol takes 2 ^ SF / BW: at `khz` it lasts 16 ms or more.
abbrev pub is_slow_symbol : Option ℕ → ℕ → Bool
is_slow_symbol none sf = false
is_slow_symbol (some khz) sf = leb (16 * khz) (2 ^ sf)

slow_125 :
    (sf : SpreadingFactor) → low_data_rate_for bw_125_khz sf ≡ is_slow_symbol (some 125) (factor sf)
unfolding low_data_rate_for
slow_125 sf_5 = refl
slow_125 _ = refl

slow_250 :
    (sf : SpreadingFactor) → low_data_rate_for bw_250_khz sf ≡ is_slow_symbol (some 250) (factor sf)
unfolding low_data_rate_for
slow_250 sf_5 = refl
slow_250 _ = refl

slow_500 :
    (sf : SpreadingFactor) → low_data_rate_for bw_500_khz sf ≡ is_slow_symbol (some 500) (factor sf)
unfolding low_data_rate_for
slow_500 sf_5 = refl
slow_500 _ = refl

low_data_rate_for_lem :
    (bw : Bandwidth) (sf : SpreadingFactor)
    → low_data_rate_for bw sf ≡ is_slow_symbol (wide_khz bw) (factor sf)
low_data_rate_for_lem bw_125_khz sf = slow_125 sf
low_data_rate_for_lem bw_250_khz sf = slow_250 sf
low_data_rate_for_lem bw_500_khz sf = slow_500 sf
low_data_rate_for_lem bw_7_khz sf = unfold low_data_rate_for in refl
low_data_rate_for_lem _ sf = unfold low_data_rate_for in refl

-- At 125, 250 and 500 kHz the low data rate optimization is on exactly if a symbol lasts 16 ms or
-- more; at the narrower bandwidths it is never on.
pub low_data_rate_optimize-symbol_time :
    (cfg : Config)
    → low_data_rate_optimize cfg
      ≡ is_slow_symbol (wide_khz cfg.bandwidth) (factor cfg.spreading_factor)
unfolding low_data_rate_optimize
low_data_rate_optimize-symbol_time cfg = low_data_rate_for_lem cfg.bandwidth cfg.spreading_factor

sync_test : ℕ → ℕ → Bool
sync_test hi lo = sync_register (hi * 256 + lo) == bit_or hi lo * 256 + lo

sync_row : ℕ → Bool
unfolding sync_test
sync_row hi = holds_until (sync_test hi) 256

sync_table : holds_until sync_row 256 ≡ true
unfolding holds_until sync_row sync_register
sync_table = refl

-- The sync word register for a 16-bit sync word with bytes hi and lo has lo as its low byte and
-- the bitwise or of the two as its high byte; so a one-byte sync word is repeated, and a
-- two-byte one is kept only if hi already has all the bits of lo.
pub sync_register_lem :
    (hi lo : ℕ) → hi < 256 → lo < 256 → sync_register (hi * 256 + lo) ≡ bit_or hi lo * 256 + lo
sync_register_lem hi lo h l = (==_iff _ _).0 (
    unfold sync_row in
    holds_until_at (sync_test hi) 256 l (holds_until_at sync_row 256 h sync_table))
