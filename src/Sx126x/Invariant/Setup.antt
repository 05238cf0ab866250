-- ===== src/Sx126x/Invariant/Setup.antt =====
-- init, start_rx and read keep their context consistent.
use leos_sdk.Prelude.{ℕ, Bool, true, false, ◌≡◌, refl, ap, ◌∙◌, arith, length-replicate, if_cases}
use leos_sdk.Sx126x.Types.{Status, HwConfig, Config}
use leos_sdk.Sx126x.Vendor.{Command, Driver}
use leos_sdk.Sx126x.Context.{
  Context, State, Result, value, stop, Action, continue, ◌>>◌, exec, command,
}
use leos_sdk.Sx126x.Frame.{kept, Keeps, kept-after, kept-command, Keeps-apply}
use leos_sdk.Sx126x.Setup.{
  reset_context, linked, init_ctx, after_vendor_init, finish_init, apply_config,
}
use leos_sdk.Sx126x.Api.{start_rx_ctx, begin_rx, prepare_rx, listen, read_ctx}
use leos_sdk.Sx126x.Transmit.{is_tx}
use leos_sdk.Sx126x.Invariant.{IsConsistent, IsConsistent-kept}
use leos_sdk.Sx126x.Invariant.Operations.{IsLive, IsLive-kept}
use leos_sdk.Sx126x.Invariant.Keeps.{Keeps-prepare_rx, Keeps-apply_config}

-- The action keeps a context that init has set up in order.
abbrev KeepsLive : {W A : Type 0} → Action W A → Type 0
KeepsLive {W} m = (s : State W) → IsLive s.ctx → IsLive (m s).1.ctx

module _ (W : Type 0) where
  continue-KeepsLive :
      {A B : Type 0} (f : A → Action W B)
      → ((a : A) → KeepsLive (f a))
      → (r : Result A) (t : State W) → IsLive t.ctx
      → IsLive (continue f r t).1.ctx
  continue-KeepsLive f l (value a) t h = l a t h
  continue-KeepsLive f l (stop e) t h = h

  KeepsLive-then :
      {A B : Type 0} (m : Action W A) (k : Action W B) → Keeps m → KeepsLive k → KeepsLive (m >> k)
  KeepsLive-then m k p q s h =
      continue-KeepsLive (λ _. k) (λ _. q) (m s).0 (m s).1 (IsLive-kept (Keeps-apply W m p s) h)

module _ {W F : Type 0} (d : Driver W F) where
  listen-KeepsLive : KeepsLive (listen {W = W})
  unfolding listen
  listen-KeepsLive s h = ground arith

  begin_rx-KeepsLive : KeepsLive (begin_rx d)
  unfolding begin_rx
  begin_rx-KeepsLive = KeepsLive-then W (prepare_rx d) listen (Keeps-prepare_rx d) listen-KeepsLive

  pub start_rx_ctx-IsConsistent :
      (s : State W) → IsConsistent s.ctx → IsConsistent (start_rx_ctx d s).1.ctx
  unfolding start_rx_ctx
  start_rx_ctx-IsConsistent s h =
      if_cases Good s.ctx.initialized
        (λ e.
          if_cases Good (is_tx s.ctx.mode) (λ _. h)
            (λ _. (begin_rx-KeepsLive s (record { consistent = h; live = e })).consistent))
        (λ _. h)
    where
      Good : Status × State W → Type 0
      Good r = IsConsistent r.1.ctx

  reset_context-IsConsistent :
      (hw : HwConfig) (cfg : Config) (c : Context)
      → c.initialized ≡ false
      → IsConsistent (reset_context hw cfg c)
  unfolding reset_context
  reset_context-IsConsistent hw cfg c h = ground (arith, length-replicate {A = ℕ} 255 0)

  reset_context-initialized :
      (hw : HwConfig) (cfg : Config) (c : Context)
      → c.initialized ≡ false
      → (reset_context hw cfg c).initialized ≡ false
  unfolding reset_context
  reset_context-initialized hw cfg c h = h

  kept-linked :
      (hw : HwConfig) (cfg : Config) (s : State W)
      → kept (linked d hw cfg s).ctx ≡ kept (reset_context hw cfg s.ctx)
  unfolding linked
  kept-linked hw cfg s = refl

  -- What holds inside init once the hardware answers: all but the mode, which is still UNINIT.
  abbrev IsStarting : Context → Type 0
  IsStarting c = IsConsistent (record c { initialized = false }) × (c.initialized ≡ true)

  finish_init-IsConsistent :
      (r : Result (Unit {0})) (s : State W)
      → IsStarting s.ctx
      → IsConsistent (finish_init d (r, s)).1.ctx
  unfolding finish_init
  finish_init-IsConsistent (value _) s h = ground arith
  finish_init-IsConsistent (stop e) s h = ground (arith, kept-after d (exec d Command.deinit s) s)

  after_vendor_init-IsConsistent :
      (r : Result ℕ) (s : State W)
      → IsConsistent s.ctx
      → s.ctx.initialized ≡ false
      → IsConsistent (after_vendor_init d (r, s)).1.ctx
  unfolding after_vendor_init
  after_vendor_init-IsConsistent (stop e) s h i = h
  after_vendor_init-IsConsistent (value a) s h i =
      let c = s.ctx in
      let t = record s { ctx = record c { initialized = true } } in
      let (r, u) = apply_config d t in
      finish_init-IsConsistent r u
        (ground (arith, Keeps-apply W (apply_config d) (Keeps-apply_config d) t))

  pub init_ctx-IsConsistent :
      (hw : HwConfig) (cfg : Config) (s : State W)
      → IsConsistent s.ctx
      → IsConsistent (init_ctx d hw cfg s).1.ctx
  unfolding init_ctx
  init_ctx-IsConsistent hw cfg s h =
      if_cases (λ (r : Status × State W). IsConsistent r.1.ctx) s.ctx.initialized (λ _. h)
        (λ off.
          let t = linked d hw cfg s in
          let same = kept-linked hw cfg s in
          let (r, u) = command d Command.init t in
          let same' = kept-command d Command.init t ∙ same in
          after_vendor_init-IsConsistent r u
            (IsConsistent-kept same' (reset_context-IsConsistent hw cfg s.ctx off))
            (ap (λ k. k.initialized) same' ∙ reset_context-initialized hw cfg s.ctx off))

pub read_ctx-IsConsistent :
    (size : ℕ) (info : Bool) (c : Context) → IsConsistent c → IsConsistent (read_ctx size info c).1
unfolding read_ctx
read_ctx-IsConsistent size info c h = ground arith
