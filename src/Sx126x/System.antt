-- ===== src/Sx126x/System.antt =====
-- The driver as a system: any calls of the API on either radio, in any order, with anything
-- happening in the outside world between them.
use leos_sdk.Prelude.{ℕ, Bool, Option, none, some, Buffer, arith, if_cases, ◌||◌}
use leos_sdk.Sx126x.Types.{Radio, Status, HwConfig, Config}
use leos_sdk.Sx126x.Vendor.{Driver}
use leos_sdk.Sx126x.Context.{State}
use leos_sdk.Sx126x.Globals.{Globals, initial_context, on}
use leos_sdk.Sx126x.Transmit.{payload_of}
use leos_sdk.Sx126x.Api.{
  Packet, read, init, start_tx, start_tx_payload, start_rx, standby_radio, poll, handle_dio1_irq,
  handle_dio1_irq_ctx,
}
use leos_sdk.Sx126x.Invariant.{IsConsistent, latch_dio1-IsConsistent}
use leos_sdk.Sx126x.Invariant.Operations.{
  poll_ctx-IsConsistent, start_tx_ctx-IsConsistent, standby_ctx-IsConsistent,
}
use leos_sdk.Sx126x.Invariant.Setup.{
  start_rx_ctx-IsConsistent, init_ctx-IsConsistent, read_ctx-IsConsistent,
}

pub record AllConsistent {W : Type 0} (g : Globals W) : Type 0 where
  pub sx1262_consistent : IsConsistent g.g_sx1262
  pub sx1268_consistent : IsConsistent g.g_sx1268

-- The globals before `main`.
abbrev pub boot : {W : Type 0} → W → Globals W
boot w = record {
  g_sx1262 = initial_context Radio.sx1262;
  g_sx1268 = initial_context Radio.sx1268;
  world = w;
}

module _ {W F : Type 0} (d : Driver W F) where
  pub data Step (g : Globals W) : Globals W → Type 0 where
    outside : (w : W) → Step g (record g { world = w })
    call_init :
        (radio : Radio) (hw : Option HwConfig) (cfg : Option Config)
        → Step g (init d radio hw cfg g).1
    call_start_tx :
        (radio : Radio) (payload : Option Buffer) (len : ℕ)
        → Step g (start_tx d radio payload len g).1
    call_start_rx : (radio : Radio) → Step g (start_rx d radio g).1
    call_standby : (radio : Radio) → Step g (standby_radio d radio g).1
    call_poll : (radio : Radio) → Step g (poll d radio g).1
    call_read :
        (radio : Radio) (buf_null : Bool) (size : ℕ) (len_null info : Bool)
        → Step g (read radio buf_null size len_null info g).1
    dio1_irq : (radio : Radio) → Step g (handle_dio1_irq d radio g).1

  pub data Reach (g : Globals W) : Globals W → Type 0 where
    here : Reach g g
    next : {h k : Globals W} → Reach g h → Step h k → Reach g k

module _ {ℓ} {W : Type 0} {A : Type ℓ} where
  on-AllConsistent :
      (radio : Radio) (absent : A) (m : State W → A × State W) (g : Globals W)
      → ((s : State W) → IsConsistent s.ctx → IsConsistent (m s).1.ctx)
      → AllConsistent g
      → AllConsistent (on radio absent m g).1
  unfolding on
  on-AllConsistent Radio.sx1262 absent m g keep h = record {
    sx1262_consistent = keep _ h.sx1262_consistent;
    sx1268_consistent = h.sx1268_consistent;
  }
  on-AllConsistent Radio.sx1268 absent m g keep h = record {
    sx1262_consistent = h.sx1262_consistent;
    sx1268_consistent = keep _ h.sx1268_consistent;
  }
  on-AllConsistent (Radio.other n) absent m g keep h = h

module _ {W F : Type 0} (d : Driver W F) where
  init-AllConsistent :
      (radio : Radio) (hw : Option HwConfig) (cfg : Option Config) (g : Globals W)
      → AllConsistent g
      → AllConsistent (init d radio hw cfg g).1
  unfolding init
  init-AllConsistent radio (some hw) (some cfg) g h =
      on-AllConsistent radio _ _ g (init_ctx-IsConsistent d hw cfg) h
  init-AllConsistent radio (some hw) none g h = h
  init-AllConsistent radio none cfg g h = h

  start_tx-AllConsistent :
      (radio : Radio) (payload : Option Buffer) (len : ℕ) (g : Globals W)
      → AllConsistent g
      → AllConsistent (start_tx_payload d radio payload len g).1
  unfolding start_tx_payload
  start_tx-AllConsistent radio none len g h = h
  start_tx-AllConsistent radio (some payload) len g h =
      on-AllConsistent radio _ _ g (start_tx_ctx-IsConsistent d payload len) h

  read-AllConsistent :
      (radio : Radio) (buf_null : Bool) (size : ℕ) (len_null info : Bool) (g : Globals W)
      → AllConsistent g
      → AllConsistent (read radio buf_null size len_null info g).1
  unfolding read
  read-AllConsistent radio buf_null size len_null info g h =
      if_cases (λ (r : (Status × Option Packet) × Globals W). AllConsistent r.1)
        (buf_null || len_null) (λ _. h)
        (λ _. on-AllConsistent radio _ _ g (λ s. read_ctx-IsConsistent size info s.ctx) h)

  Step-AllConsistent : {g h : Globals W} → Step d g h → AllConsistent g → AllConsistent h
  unfolding start_tx start_rx standby_radio poll handle_dio1_irq handle_dio1_irq_ctx
  Step-AllConsistent (outside w) h = record {
    sx1262_consistent = h.sx1262_consistent;
    sx1268_consistent = h.sx1268_consistent;
  }
  Step-AllConsistent {g} (call_init radio hw cfg) h = init-AllConsistent radio hw cfg g h
  Step-AllConsistent {g} (call_start_tx radio payload len) h =
      start_tx-AllConsistent radio (payload_of payload len) len g h
  Step-AllConsistent {g} (call_start_rx radio) h =
      on-AllConsistent radio _ _ g (start_rx_ctx-IsConsistent d) h
  Step-AllConsistent {g} (call_standby radio) h =
      on-AllConsistent radio _ _ g (standby_ctx-IsConsistent d) h
  Step-AllConsistent {g} (call_poll radio) h =
      on-AllConsistent radio _ _ g (poll_ctx-IsConsistent d) h
  Step-AllConsistent {g} (call_read radio b size l info) h =
      read-AllConsistent radio b size l info g h
  Step-AllConsistent {g} (dio1_irq radio) h =
      on-AllConsistent radio _ _ g (λ s. latch_dio1-IsConsistent (d.now_ms s.world) s.ctx) h

  boot-AllConsistent : (w : W) → AllConsistent (boot w)
  unfolding initial_context
  boot-AllConsistent w = ground arith

  Reach-AllConsistent : {g h : Globals W} → Reach d g h → AllConsistent g → AllConsistent h
  Reach-AllConsistent here h = h
  Reach-AllConsistent (next r st) h = Step-AllConsistent st (Reach-AllConsistent r h)

  -- Whatever the vendor library does, whenever interrupts come and in whatever order the API is
  -- called from boot, both contexts satisfy IsConsistent.
  pub reachable-AllConsistent : (w : W) {g : Globals W} → Reach d (boot w) g → AllConsistent g
  reachable-AllConsistent w r = Reach-AllConsistent r (boot-AllConsistent w)
