-- ===== src/Sx126x/Transmission.antt =====
-- The life of a transmission: how start_tx begins it and how poll ends it.
use leos_sdk.Prelude.{ℕ, ◌*◌, true, false, ◌≡◌, ◌≢◌, refl, ap, ◌∙◌, arith, Buffer}
use leos_sdk.Prelude.Words.{u32}
use leos_sdk.Sx126x.Types.{Status, ok, tx}
use leos_sdk.Sx126x.Vendor.{Driver, set_tx}
use leos_sdk.Sx126x.Context.{Context, State, Result, value, stop, command}
use leos_sdk.Sx126x.Frame.{kept-command, command-ne-stop_ok, Keeps-apply, Keeps-honest}
use leos_sdk.Sx126x.Transmit.{is_tx, begin_tx, prepare_tx, launch_tx, finish_tx, start_tx_ctx}
use leos_sdk.Sx126x.Invariant.Keeps.{Keeps-prepare_tx}

-- What start_tx leaves behind: a transmission in flight exactly if it answers OK, and then the
-- mode is TX; and no earlier outcome is reported for it.
pub record Started (status : Status) (c : Context) : Type 0 where
  pub started : status ≡ ok → (c.tx_in_flight ≡ true) × (c.mode ≡ tx) × (c.last_tx_status ≡ ok)
  pub refused : status ≢ ok → c.tx_in_flight ≡ false

-- No transmission is in flight or counted as such.
abbrev pub IsIdle : Context → Type 0
IsIdle c = (c.tx_in_flight ≡ false) × (is_tx c.mode ≡ false)

module _ {W F : Type 0} (d : Driver W F) where
  finish_tx-Started :
      (r : Result ℕ) (s : State W)
      → r ≢ stop ok
      → s.ctx.tx_in_flight ≡ true
      → s.ctx.mode ≡ tx
      → s.ctx.last_tx_status ≡ ok
      → Started (finish_tx d (r, s)).0 (finish_tx d (r, s)).1.ctx
  unfolding finish_tx
  finish_tx-Started (value a) s h f m l = ground arith
  finish_tx-Started (stop e) s h f m l = record {
    started = λ q. absurd (h (ap stop q));
    refused = λ q. refl;
  }

  launch_tx-Started :
      (r : Result ℕ) (s : State W)
      → r ≢ stop ok
      → s.ctx.tx_in_flight ≡ false
      → Started (launch_tx d (r, s)).0 (launch_tx d (r, s)).1.ctx
  unfolding launch_tx begin_tx
  launch_tx-Started (stop e) s h f = record {
    started = λ q. absurd (h (ap stop q));
    refused = λ q. f;
  }
  launch_tx-Started (value a) s h f =
      let c = begin_tx (d.now_ms s.world) s.ctx in
      let t = record s { ctx = c } in
      let cmd = set_tx (u32 ((c.config).tx_timeout_ms * 1000)) in
      let same = kept-command d cmd t in
      finish_tx-Started (command d cmd t).0 (command d cmd t).1 (command-ne-stop_ok d cmd t)
        (ap (λ k. k.tx_in_flight) same) (ap (λ k. k.mode) same) (ap (λ k. k.last_tx_status) same)

  -- On an initialized radio that is not transmitting, start_tx either answers OK and a
  -- transmission is in flight in mode TX, or answers an error and none is in flight; whatever
  -- call of the vendor library fails.
  pub start_tx_ctx-Started :
      (payload : Buffer) (len : ℕ) (s : State W)
      → s.ctx.initialized ≡ true
      → IsIdle s.ctx
      → Started (start_tx_ctx d payload len s).0 (start_tx_ctx d payload len s).1.ctx
  unfolding start_tx_ctx
  start_tx_ctx-Started payload len s live (quiet, no_tx) =
      simp (live, quiet, no_tx)
        (launch_tx-Started (prepare_tx d payload len s).0 (prepare_tx d payload len s).1
          (Keeps-honest W _ (Keeps-prepare_tx d payload len) s)
          (ap (λ k. k.tx_in_flight) (Keeps-apply W _ (Keeps-prepare_tx d payload len) s) ∙ quiet))
