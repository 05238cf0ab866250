-- ===== src/Sx126x/Frame.antt =====
-- What calls of the vendor library leave alone, whatever they do and whatever interrupts them.
use leos_sdk.Prelude.{ℕ, Bool, List, [], ◌∷◌, Option, none, some, ◌≡◌, ◌≢◌, refl, ap, ◌∙◌, arith}
use leos_sdk.Sx126x.Types.{
  Radio, Status, ok, err_arg, err_state, err_io, err_timeout, err_busy, err_driver, Mode, HwConfig,
  Config, PacketInfo,
}
use leos_sdk.Sx126x.Vendor.{Call, Command, Driver}
use leos_sdk.Sx126x.Convert.{map_status}
use leos_sdk.Sx126x.Context.{
  Context, State, Result, value, stop, Action, pure, or_give_up, get_config, continue, check, ◌>>=◌,
  ◌>>◌, status_of, after, exec, command, commands,
}

-- The fields that neither a call of the vendor library nor an interrupt writes.
pub record Kept : Type 0 where
  pub radio : Radio
  pub hw_config : HwConfig
  pub config : Config
  pub mode : Mode
  pub initialized : Bool
  pub tx_in_flight : Bool
  pub tx_started_at_ms : ℕ
  pub last_tx_status : Status
  pub rx_pending : Bool
  pub rx_overrun : Bool
  pub rx_buf : List ℕ
  pub rx_len : ℕ
  pub rx_info : PacketInfo

abbrev pub kept : Context → Kept
kept c = record {
  radio = c.radio;
  hw_config = c.hw_config;
  config = c.config;
  mode = c.mode;
  initialized = c.initialized;
  tx_in_flight = c.tx_in_flight;
  tx_started_at_ms = c.tx_started_at_ms;
  last_tx_status = c.last_tx_status;
  rx_pending = c.rx_pending;
  rx_overrun = c.rx_overrun;
  rx_buf = c.rx_buf;
  rx_len = c.rx_len;
  rx_info = c.rx_info;
}

-- The action writes none of those fields, and does not return early with LEOS_RADIO_OK.
unfoldable pub Keeps : {W A : Type 0} → Action W A → Type 0
Keeps {W} m = (s : State W) → (kept (m s).1.ctx ≡ kept s.ctx) × ((m s).0 ≢ stop ok)

pub check-ne-stop_ok : {A : Type 0} (status : Status) (a : A) → check status a ≢ stop ok
check-ne-stop_ok ok a h = cc
check-ne-stop_ok err_arg a h = cc
check-ne-stop_ok err_state a h = cc
check-ne-stop_ok err_io a h = cc
check-ne-stop_ok err_timeout a h = cc
check-ne-stop_ok err_busy a h = cc
check-ne-stop_ok err_driver a h = cc

module _ {W F : Type 0} (d : Driver W F) where
  pub kept-after : (r : Call W) (s : State W) → kept (after d r s).ctx ≡ kept s.ctx
  unfolding after
  kept-after r s = ground arith

  pub kept-command : (cmd : Command) (s : State W) → kept (command d cmd s).1.ctx ≡ kept s.ctx
  unfolding command
  kept-command cmd s = kept-after (exec d cmd s) s

  pub command-ne-stop_ok : (cmd : Command) (s : State W) → (command d cmd s).0 ≢ stop ok
  unfolding command
  command-ne-stop_ok cmd s = check-ne-stop_ok (map_status (exec d cmd s).rc) (exec d cmd s).out

  -- An action that makes one call and decides its result from that.
  pub Keeps-after :
      {A : Type 0} (r : State W → Call W) (result : State W → Result A)
      → ((s : State W) → result s ≢ stop ok)
      → Keeps (λ s. (result s, after d (r s) s))
  unfolding Keeps
  Keeps-after r result honest s = (kept-after (r s) s, honest s)

  pub Keeps-command : (cmd : Command) → Keeps (command d cmd)
  unfolding Keeps
  Keeps-command cmd s = (kept-command cmd s, command-ne-stop_ok cmd s)

module _ (W : Type 0) where
  pub Keeps-apply :
      {A : Type 0} (m : Action W A) → Keeps m → (s : State W) → kept (m s).1.ctx ≡ kept s.ctx
  unfolding Keeps
  Keeps-apply m k s = (k s).0

  pub Keeps-honest : {A : Type 0} (m : Action W A) → Keeps m → (s : State W) → (m s).0 ≢ stop ok
  unfolding Keeps
  Keeps-honest m k s = (k s).1

  continue-Keeps :
      {A B : Type 0} (f : A → Action W B)
      → ((a : A) → Keeps (f a))
      → (r : Result A) (t : State W) → r ≢ stop ok
      → (kept (continue f r t).1.ctx ≡ kept t.ctx) × ((continue f r t).0 ≢ stop ok)
  unfolding Keeps
  continue-Keeps f l (value a) t h = l a t
  continue-Keeps f l (stop e) t h = (refl, λ q. h (ground arith))

  pub Keeps-bind :
      {A B : Type 0} (m : Action W A) (f : A → Action W B)
      → Keeps m
      → ((a : A) → Keeps (f a))
      → Keeps (m >>= f)
  unfolding Keeps
  Keeps-bind m f k l s =
      let (same, honest) = continue-Keeps f l (m s).0 (m s).1 (k s).1 in (same ∙ (k s).0, honest)

  pub Keeps-then :
      {A B : Type 0} (m : Action W A) (f : Action W B) → Keeps m → Keeps f → Keeps (m >> f)
  Keeps-then m f k l = Keeps-bind m (λ _. f) k (λ _. l)

  continue-post :
      {A B : Type 0} (P : State W → Type 0) (k : Action W B)
      → ((s : State W) → status_of (k s).0 ≡ ok → P (k s).1)
      → (r : Result A) (t : State W) → r ≢ stop ok
      → status_of (continue (λ _. k) r t).0 ≡ ok
      → P (continue (λ _. k) r t).1
  continue-post P k post (value a) t honest done = post t done
  continue-post P k post (stop e) t honest done = absurd (honest (ap stop done))

  -- What the last step ensures when it answers OK, the sequence does.
  pub then-post :
      {A B : Type 0} (P : State W → Type 0) (m : Action W A) (k : Action W B)
      → Keeps m
      → ((s : State W) → status_of (k s).0 ≡ ok → P (k s).1)
      → (s : State W) → status_of ((m >> k) s).0 ≡ ok
      → P ((m >> k) s).1
  then-post P m k keeps post s = continue-post P k post (m s).0 (m s).1 (Keeps-honest m keeps s)

  pub Keeps-pure : {A : Type 0} (a : A) → Keeps (pure {W = W} a)
  unfolding Keeps
  Keeps-pure a s = (refl, λ q. cc)

  pub Keeps-or_give_up :
      {A : Type 0} (o : Option A) (e : Status) → e ≢ ok → Keeps (or_give_up {W = W} o e)
  unfolding Keeps
  Keeps-or_give_up none e h s = (refl, λ q. h (ground arith))
  Keeps-or_give_up (some a) e h s = (refl, λ q. cc)

  pub Keeps-get_config : Keeps (get_config {W = W})
  unfolding Keeps
  Keeps-get_config s = (refl, λ q. cc)

module _ {W F : Type 0} (d : Driver W F) where
  pub Keeps-commands : (cmds : List Command) → Keeps (commands d cmds)
  unfolding commands
  Keeps-commands [] = Keeps-pure W tt
  Keeps-commands (cmd ∷ cmds) = Keeps-then W _ _ (Keeps-command d cmd) (Keeps-commands cmds)
