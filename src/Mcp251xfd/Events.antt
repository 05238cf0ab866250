-- ===== src/Mcp251xfd/Events.antt =====
-- What the task does for an event clears it, where the controller and the callback do their part.
use leos_sdk.Prelude.{
  ℕ, zero, suc, ◌≤◌, ◌<◌, Bool, true, false, ◌≡◌, refl, sym, arith, Option, some,
}
use mathlib.Core.Path.{subst}
use leos_sdk.Mcp251xfd.Types.{
  Context, Device, Code, no_interrupt, error_interrupt, wakeup_interrupt, opmode_change_occured,
  txq_interrupt, fifo1_interrupt, other, Flags, bus_error_event, bus_wakeup_event,
  operation_mode_change_event, rx_event, clearable_flags_mask, Reply, Platform,
}
use leos_sdk.Mcp251xfd.State.{State, Action, continue, get_context}
use leos_sdk.Mcp251xfd.Driver.{call}
use leos_sdk.Mcp251xfd.Task.{clear, service_txq, run_callback, receive, service_fifo1, service}
use leos_sdk.Mcp251xfd.Consistency.{Safe, safe, Safe-continue}
use leos_sdk.Mcp251xfd.Ready.{Ready, call-Ready}

-- The controller, and the callback `f`, for a bound on the events to come, which no call raises. An
-- event stays pending until its flag is cleared, and then the bound falls. The status of the queue
-- and of the FIFO can be read; an event of the queue is that its attempts are exhausted; and the
-- callback empties the receive FIFO.
pub record Clears {W : Type 0} (p : Platform W) (d : Device) (f reference : ℕ) (left : W → ℕ)
    (IsPending : Code → W → Type 0) (IsDrained : W → Type 0) : Type 0 where
  pub asks :
      (w : W)
      → let r = p.get_current_interrupt_event d w in
        (left r.world ≤ left w) × (r.err ≡ 0 → IsPending r.out r.world)
  pub error_read :
      (w : W)
      → IsPending error_interrupt w
      → let r = p.get_transmit_receive_error_status d w in
        (left r.world ≤ left w) × IsPending error_interrupt r.world
  pub error_clear :
      (w : W)
      → IsPending error_interrupt w
      → left (p.clear_interrupt_events d bus_error_event w).world < left w
  pub wakeup_clear :
      (w : W)
      → IsPending wakeup_interrupt w
      → left (p.clear_interrupt_events d bus_wakeup_event w).world < left w
  pub opmode_read :
      (w : W)
      → IsPending opmode_change_occured w
      → let r = p.get_actual_operation_mode d w in
        (left r.world ≤ left w) × IsPending opmode_change_occured r.world
  pub opmode_clear :
      (w : W)
      → IsPending opmode_change_occured w
      → left (p.clear_interrupt_events d operation_mode_change_event w).world < left w
  pub other_clear :
      (n : ℕ) (w : W)
      → IsPending (other n) w
      → left (p.clear_interrupt_events d clearable_flags_mask w).world < left w
  pub txq_read :
      (w : W)
      → IsPending txq_interrupt w
      → let r = p.get_txq_status d w in
        (r.err ≡ 0) × (r.out ≡ true) × (left r.world ≤ left w) × IsPending txq_interrupt r.world
  pub txq_reset : (w : W) → IsPending txq_interrupt w → left (p.reset_txq d w).world < left w
  pub fifo1_read :
      (w : W)
      → IsPending fifo1_interrupt w
      → let r = p.get_fifo1_status d w in
        (r.err ≡ 0)
        × (left r.world ≤ left w)
        × IsPending fifo1_interrupt r.world
        × (r.out ≡ false → IsDrained r.world)
  pub callback :
      (w : W)
      → IsPending fifo1_interrupt w
      → let r = p.callback f reference d w in (left r.world ≤ left w) × IsDrained r.world
  pub fifo1_clear :
      (w : W)
      → IsDrained w
      → let r = p.clear_fifo1_events d w in (left r.world ≤ left w) × IsDrained r.world
  pub rx_clear : (w : W) → IsDrained w → left (p.clear_interrupt_events d rx_event w).world < left w

module _ {W : Type 0} (p : Platform W) (a : ℕ) (d : Device) (f reference : ℕ) (left : W → ℕ)
    (IsPending : Code → W → Type 0) (IsDrained : W → Type 0)
    (law : Clears p d f reference left IsPending IsDrained) where
  -- Ready, with a smaller bound.
  abbrev pub IsBelow : ℕ → Unit {0} → State W → Type 0
  IsBelow n x t = Ready a f reference t × (left t.world < n)

  pub call_then :
      {A B : Type 0} (Q : B → State W → Type 0) (g : W → Reply W A) (k : ℕ × A → Action W B)
      (P : W → Type 0) (s : State W)
      → Ready a f reference s
      → P (g s.world).world
      → ((t : State W)
          → Ready a f reference t
          → P t.world
          → Safe Q (k ((g s.world).err, (g s.world).out) t))
      → Safe Q (continue k (call g s))
  call_then Q g k P s ready h next =
      let r = g s.world in
      Safe-continue (λ x t. Ready a f reference t × (t.world ≡ r.world) × (x ≡ (r.err, r.out))) Q k
        (call g s) (call-Ready a f reference g s ready)
        (λ x t (rt, w, e). rw e (next t rt (subst P (sym w) h)))

  clear-IsBelow :
      (flags : Flags) (n : ℕ) (s : State W)
      → Ready a f reference s
      → left (p.clear_interrupt_events d flags s.world).world < n
      → Safe (IsBelow n) (clear p d flags s)
  unfolding clear
  clear-IsBelow flags n s ready h =
      call_then (IsBelow n) (p.clear_interrupt_events d flags) _ (λ w. left w < n) s ready h
        (λ t rt ht. safe (rt, ht))

  service_txq-IsBelow :
      (r : ℕ × Bool) (n : ℕ) (s : State W)
      → Ready a f reference s
      → r.0 ≡ 0
      → r.1 ≡ true
      → left (p.reset_txq d s.world).world < n
      → Safe (IsBelow n) (service_txq p d r s)
  unfolding service_txq
  service_txq-IsBelow (suc _, _) n s ready e b h = absurd (omega arith)
  service_txq-IsBelow (zero, false) n s ready e b h = absurd (cc b)
  service_txq-IsBelow (zero, true) n s ready e b h =
      call_then (IsBelow n) (p.reset_txq d) _ (λ w. left w < n) s ready h (λ t rt ht. safe (rt, ht))

  -- Ready, with the FIFO drained and no greater bound.
  abbrev Drained : ℕ → Unit {0} → State W → Type 0
  Drained n x t = Ready a f reference t × IsDrained t.world × (left t.world ≤ n)

  run_callback-Drained :
      (c : Context) (o : Option ℕ) (s : State W)
      → Ready a f reference s
      → o ≡ some f
      → c.cb_user_reference ≡ reference
      → IsPending fifo1_interrupt s.world
      → Safe (Drained (left s.world)) (run_callback p d c o s)
  unfolding run_callback
  run_callback-Drained c o s ready e ref h =
      rw (e, ref)
        (call_then (Drained (left s.world)) (p.callback f reference d) _
          (λ w. (left w ≤ left s.world) × IsDrained w) s ready (law.callback s.world h)
          (λ t rt (le, drained). safe (rt, drained, le)))

  receive-Drained :
      (not_empty : Bool) (s : State W)
      → Ready a f reference s
      → IsPending fifo1_interrupt s.world
      → (not_empty ≡ false → IsDrained s.world)
      → Safe (Drained (left s.world)) (receive p a d not_empty s)
  unfolding receive get_context
  receive-Drained false s ready h drained = safe (ready, drained refl, omega arith)
  receive-Drained true s ready h drained =
      let (c, e, cb, ref) = ready.context in rw e (run_callback-Drained c c.rx_cb s ready cb ref h)

  service_fifo1-IsBelow :
      (r : ℕ × Bool) (n : ℕ) (s : State W)
      → Ready a f reference s
      → r.0 ≡ 0
      → IsPending fifo1_interrupt s.world
      → (r.1 ≡ false → IsDrained s.world)
      → left s.world ≤ n
      → Safe (IsBelow n) (service_fifo1 p a d r s)
  unfolding service_fifo1
  service_fifo1-IsBelow (suc _, _) n s ready e held drained h = absurd (omega arith)
  service_fifo1-IsBelow (zero, not_empty) n s ready e held drained h =
      Safe-continue (Drained (left s.world)) (IsBelow n) _ (receive p a d not_empty s)
        (receive-Drained not_empty s ready held drained)
        (λ x t (rt, dt, le).
          call_then (IsBelow n) (p.clear_fifo1_events d) _
            (λ w. (left w ≤ left t.world) × IsDrained w) t rt (law.fifo1_clear t.world dt)
            (λ u ru (le_u, du).
              let less = law.rx_clear u.world du in clear-IsBelow rx_event n u ru (omega arith)))

  pub service-IsBelow :
      (code : Code) (s : State W)
      → Ready a f reference s
      → ¬ (code ≡ no_interrupt)
      → IsPending code s.world
      → Safe (IsBelow (left s.world)) (service p a d code s)
  unfolding service
  service-IsBelow no_interrupt s ready ne h = absurd (ne refl)
  service-IsBelow error_interrupt s ready ne h =
      call_then _ (p.get_transmit_receive_error_status d) _
        (λ w. (left w ≤ left s.world) × IsPending error_interrupt w) s ready
        (law.error_read s.world h)
        (λ t rt (le, ht).
          let less = law.error_clear t.world ht in
          clear-IsBelow bus_error_event (left s.world) t rt (omega arith))
  service-IsBelow wakeup_interrupt s ready ne h =
      clear-IsBelow bus_wakeup_event (left s.world) s ready (law.wakeup_clear s.world h)
  service-IsBelow opmode_change_occured s ready ne h =
      call_then _ (p.get_actual_operation_mode d) _
        (λ w. (left w ≤ left s.world) × IsPending opmode_change_occured w) s ready
        (law.opmode_read s.world h)
        (λ t rt (le, ht).
          let less = law.opmode_clear t.world ht in
          clear-IsBelow operation_mode_change_event (left s.world) t rt (omega arith))
  service-IsBelow txq_interrupt s ready ne h =
      let (e, b, le, ht) = law.txq_read s.world h in
      call_then _ (p.get_txq_status d) _ (λ w. (left w ≤ left s.world) × IsPending txq_interrupt w)
        s ready (le, ht)
        (λ t rt (le, ht).
          let less = law.txq_reset t.world ht in
          service_txq-IsBelow _ (left s.world) t rt e b (omega arith))
  service-IsBelow fifo1_interrupt s ready ne h =
      let (e, le, held, drained) = law.fifo1_read s.world h in
      let r = p.get_fifo1_status d s.world in
      call_then _ (p.get_fifo1_status d) _
        (λ w. (left w ≤ left s.world) × IsPending fifo1_interrupt w × (r.out ≡ false → IsDrained w))
        s ready (le, held, drained)
        (λ t rt (le, ht, dt). service_fifo1-IsBelow _ (left s.world) t rt e ht dt le)
  service-IsBelow (other n) s ready ne h =
      clear-IsBelow clearable_flags_mask (left s.world) s ready (law.other_clear n s.world h)
