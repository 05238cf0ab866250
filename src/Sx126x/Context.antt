-- ===== src/Sx126x/Context.antt =====
-- The context of one radio (sx126x_priv.h), the calls of the vendor library on it, and the early
-- return on a status as a monad.
use leos_sdk.Prelude.{ℕ, Bool, true, if◌then◌else◌, Option, none, some, List, [], ◌∷◌}
use leos_sdk.Sx126x.Types.{
  Radio, Status, ok, err_arg, err_state, err_io, err_timeout, err_busy, err_driver, Mode, HwConfig,
  Config, PacketInfo,
}
use leos_sdk.Sx126x.Vendor.{Handle, Call, Command, Driver}
use leos_sdk.Sx126x.Convert.{map_status}

pub record Context : Type 0 where
  pub radio : Radio
  pub handle : Handle
  pub hw_config : HwConfig
  pub config : Config
  pub mode : Mode
  pub initialized : Bool
  pub irq_pending : Bool
  pub irq_latched_at_ms : ℕ
  pub tx_in_flight : Bool
  pub tx_started_at_ms : ℕ
  pub last_tx_status : Status
  pub rx_pending : Bool
  pub rx_overrun : Bool
  pub rx_buf : List ℕ
  pub rx_len : ℕ
  pub rx_info : PacketInfo

abbrev pub max_payload_len : ℕ
max_payload_len = 255

abbrev pub irq_mask_all : ℕ
irq_mask_all = 0x03FF

pub record State (W : Type 0) : Type 0 where
  pub ctx : Context
  pub world : W

-- A step that may return early with a status.
pub data Result (A : Type 0) : Type 0 where
  value : A → Result A
  stop : Status → Result A

abbrev pub Action : Type 0 → Type 0 → Type 0
Action W A = State W → Result A × State W

module _ {W : Type 0} where
  abbrev pub pure : {A : Type 0} → A → Action W A
  pure a s = (value a, s)

  -- `return status;` before the end.
  abbrev pub give_up : {A : Type 0} → Status → Action W A
  give_up e s = (stop e, s)

  abbrev pub or_give_up : {A : Type 0} → Option A → Status → Action W A
  or_give_up none e = give_up e
  or_give_up (some a) e = pure a

  abbrev pub get_config : Action W Config
  get_config s = (value s.ctx.config, s)

  abbrev pub modify : (Context → Context) → Action W (Unit {0})
  modify f s = (value tt, record s { ctx = f s.ctx })

  -- What follows a step: nothing more once a status is returned.
  abbrev pub continue : {A B : Type 0} → (A → Action W B) → Result A → Action W B
  continue f (value a) s = f a s
  continue f (stop e) s = (stop e, s)

  infixl 5 ◌>>=◌ ◌>>◌
  abbrev pub ◌>>=◌ : {A B : Type 0} → Action W A → (A → Action W B) → Action W B
  ◌>>=◌ m f s = let (r, t) = m s in continue f r t

  abbrev pub ◌>>◌ : {A B : Type 0} → Action W A → Action W B → Action W B
  m >> k = m >>= λ _. k

-- `if (status != LEOS_RADIO_OK) return status;`
abbrev pub check : {A : Type 0} → Status → A → Result A
check ok a = value a
check err_arg a = stop err_arg
check err_state a = stop err_state
check err_io a = stop err_io
check err_timeout a = stop err_timeout
check err_busy a = stop err_busy
check err_driver a = stop err_driver

-- The status that a function returns: LEOS_RADIO_OK at its end.
abbrev pub status_of : {A : Type 0} → Result A → Status
status_of (value _) = ok
status_of (stop e) = e

-- The body of `leos_sx126x_handle_dio1_irq` on a context, at the time that the clock shows.
unfoldable pub latch_dio1 : ℕ → Context → Context
latch_dio1 now c =
    if c.initialized then record c { irq_latched_at_ms = now; irq_pending = true } else c

module _ {W F : Type 0} (d : Driver W F) where
  -- The state after a call of the vendor library, with the interrupt that came during it.
  unfoldable pub after : Call W → State W → State W
  unfolding latch_dio1
  after r s =
      let c = record s.ctx { handle = r.handle } in
      record { ctx = if r.dio1 then latch_dio1 (d.now_ms r.world) c else c; world = r.world }

  unfoldable pub exec : Command → State W → Call W
  exec cmd s = d.exec s.ctx.radio cmd s.ctx.handle s.world

  -- `status = leos_sx126x_map_status(sx1262_...(&ctx->handle, ...)); if (status != OK) return
  -- status;`, with the value stored through the call's out pointer.
  unfoldable pub command : Command → Action W ℕ
  unfolding exec
  command cmd s = let r = exec cmd s in (check (map_status r.rc) r.out, after r s)

  -- Such calls one after the other.
  unfoldable pub commands : List Command → Action W (Unit {0})
  commands [] = pure tt
  commands (cmd ∷ cmds) = do command cmd; commands cmds
