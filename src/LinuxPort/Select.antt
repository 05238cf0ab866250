-- ===== src/LinuxPort/Select.antt =====
-- The level of the chip select line over a transfer.
use leos_sdk.Prelude.{
  ℕ, Bool, true, false, if◌then◌else◌, if_cases, Bool-cases, Option, some, List, [], ◌∷◌, ◌++◌,
  Buffer, ◌≡◌, refl, inl, inr,
}
use leos_sdk.Prelude.Int.{ℤ, is_negative}
use leos_sdk.Sx126x.Context.{Context}
use leos_sdk.LinuxPort.Gpiod.{Transfer, Gpiod, State}
use leos_sdk.LinuxPort.Lines.{gpio_of}
use leos_sdk.LinuxPort.Bus.{
  spi_fd, sent, received, message, select, exchange, write_read_with, spi_write_read_ctx,
}

-- What libgpiod documents of line values: a line has the value that was set, unless the call
-- failed, and then it has its value of before. An exchange on the bus does not touch the lines.
pub record DrivesLines {W : Type 0} (lib : Gpiod W) (level : ℕ → ℕ → W → Bool) : Type 0 where
  pub set_value :
      (q o : ℕ) (v : Bool) (w : W)
      → level q o (lib.set_value q o v w).1
        ≡ (if is_negative (lib.set_value q o v w).0 then level q o w else v)
  pub spi_message :
      (q o : ℕ) (fd : ℤ) (ts : List Transfer) (w : W)
      → level q o (lib.spi_message fd ts w).1 ≡ level q o w

module _ {W : Type 0} (lib : Gpiod W) (level : ℕ → ℕ → W → Bool) where
  -- NSS is high, or the last call, which should have raised it, failed and the result is 1.
  pub data Deselected (q o : ℕ) : ℕ × W → Type 0 where
    high : (r : ℕ) (w : W) → level q o w ≡ true → Deselected q o (r, w)
    stuck :
        (w : W)
        → is_negative (lib.set_value q o true w).0 ≡ true
        → Deselected q o (1, (lib.set_value q o true w).1)

  module _ (drives : DrivesLines lib level) where
    raise-Deselected :
        (q o : ℕ) (failed : Bool) (w : W)
        → let (raised, w') = lib.set_value q o true w in
          Deselected q o (if failed then 1 else if is_negative raised then 1 else 0, w')
    raise-Deselected q o true w = elim (Bool-cases (is_negative (lib.set_value q o true w).0)) [
      | inl e ↦ stuck w e
      | inr e ↦ high 1 _ (rw (drives.set_value q o true w, e) refl)
    ]
    raise-Deselected q o false w = elim (Bool-cases (is_negative (lib.set_value q o true w).0)) [
      | inl e ↦ rw e (stuck w e)
      | inr e ↦ high _ _ (rw (drives.set_value q o true w, e) refl)
    ]

    message-Deselected :
        (fd : ℤ) (q o : ℕ) (ts : List Transfer) (w : W) → Deselected q o (message lib fd q o ts w)
    unfolding message
    message-Deselected fd q o ts w =
        raise-Deselected q o (is_negative (lib.spi_message fd ts w).0) (lib.spi_message fd ts w).1

    select-Deselected :
        (fd : ℤ) (q o : ℕ) (ts : List Transfer) (w : W)
        → level q o w ≡ true
        → Deselected q o (select lib fd q o ts w)
    unfolding select
    select-Deselected fd q o ts w e =
        if_cases (λ (p : ℕ × W). Deselected q o p) (is_negative (lib.set_value q o false w).0)
          (λ f. high 1 _ (rw (drives.set_value q o false w, f) e))
          (λ _. message-Deselected fd q o ts (lib.set_value q o false w).1)

    exchange-Deselected :
        (fd : ℤ) (q o : ℕ) (ts : List Transfer) (w : W)
        → level q o w ≡ true
        → Deselected q o (exchange lib fd q o ts w)
    unfolding exchange
    exchange-Deselected fd q o [] w e = high 0 w e
    exchange-Deselected fd q o (t ∷ ts) w e = select-Deselected fd q o (t ∷ ts) w e

    -- A transfer of a radio whose lines are requested and whose NSS is high leaves NSS high on
    -- every path but one: where the last call, which should have raised it, failed, and then the
    -- result is 1.
    pub spi_write_read_ctx-Deselected :
        (ctx : Context) (in_buf : Option Buffer) (in_len : ℕ) (out : Bool) (out_len nss : ℕ)
        (s : State W)
        → (gpio_of ctx.radio s).nss_req ≡ some nss
        → level nss (gpio_of ctx.radio s).nss_offset s.world ≡ true
        → let p = spi_write_read_ctx lib (some ctx) in_buf in_len out out_len s in
          Deselected nss (gpio_of ctx.radio s).nss_offset (p.0, p.1.world)
    unfolding spi_write_read_ctx write_read_with
    spi_write_read_ctx-Deselected ctx in_buf in_len out out_len nss s e h =
        let o = (gpio_of ctx.radio s).nss_offset in
        let ts =
          sent lib in_buf in_len ctx.hw_config.spi_baud_hz
          ++ received lib out out_len ctx.hw_config.spi_baud_hz in
        rw e (
          if_cases (λ (p : ℕ × W). Deselected nss o p) (is_negative (spi_fd lib (some ctx) s.world))
            (λ _. high 1 s.world h)
            (λ _. exchange-Deselected (spi_fd lib (some ctx) s.world) nss o ts s.world h))
