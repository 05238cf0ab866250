-- ===== src/Mcp251xfd/Finishing.antt =====
-- The loop of the task ends where what is done for an event clears it.
use leos_sdk.Prelude.{ℕ, zero, suc, ◌≤◌, ◌<◌, Bool, true, false, ◌≡◌, refl, sym, arith, some}
use mathlib.Core.Path.{subst}
use leos_sdk.Mcp251xfd.Types.{
  Device, Code, no_interrupt, error_interrupt, wakeup_interrupt, opmode_change_occured,
  txq_interrupt, fifo1_interrupt, other, Platform,
}
use leos_sdk.Mcp251xfd.State.{State, Action, continue, get_context}
use leos_sdk.Mcp251xfd.Task.{service, handle_event, serve, task_if, task_on, task}
use leos_sdk.Mcp251xfd.Consistency.{Safe, safe, Safe-continue}
use leos_sdk.Mcp251xfd.Events.{Clears, call_then, service-IsBelow}
use leos_sdk.Mcp251xfd.Ready.{Ready, modify_context-Ready}

module _ {W : Type 0} (p : Platform W) (a : ℕ) (d : Device) (f reference : ℕ) (left : W → ℕ)
    (IsPending : Code → W → Type 0) (IsDrained : W → Type 0)
    (law : Clears p d f reference left IsPending IsDrained) where
  -- The loop ended, and not for want of fuel.
  abbrev Ended : Bool → State W → Type 0
  Ended b t = b ≡ true

  service_then :
      (rest : Action W Bool) (code : Code) (s : State W)
      → Ready a f reference s
      → ¬ (code ≡ no_interrupt)
      → IsPending code s.world
      → ((t : State W) → Ready a f reference t → left t.world < left s.world → Safe Ended (rest t))
      → Safe Ended (continue (λ _. rest) (service p a d code s))
  service_then rest code s ready ne h next =
      Safe-continue _ _ (λ _. rest) _
        (service-IsBelow p a d f reference left IsPending IsDrained law code s ready ne h)
        (λ x t (rt, less). next t rt less)

  handle_event-Ended :
      (rest : Action W Bool) (event : ℕ × Code) (s : State W)
      → Ready a f reference s
      → (event.0 ≡ 0 → IsPending event.1 s.world)
      → ((t : State W) → Ready a f reference t → left t.world < left s.world → Safe Ended (rest t))
      → Safe Ended (handle_event p a d rest event s)
  unfolding handle_event
  handle_event-Ended rest (suc _, _) s ready h next = safe refl
  handle_event-Ended rest (zero, no_interrupt) s ready h next = safe refl
  handle_event-Ended rest (zero, error_interrupt) s ready h next =
      service_then rest error_interrupt s ready (λ k. cc k) (h refl) next
  handle_event-Ended rest (zero, wakeup_interrupt) s ready h next =
      service_then rest wakeup_interrupt s ready (λ k. cc k) (h refl) next
  handle_event-Ended rest (zero, opmode_change_occured) s ready h next =
      service_then rest opmode_change_occured s ready (λ k. cc k) (h refl) next
  handle_event-Ended rest (zero, txq_interrupt) s ready h next =
      service_then rest txq_interrupt s ready (λ k. cc k) (h refl) next
  handle_event-Ended rest (zero, fifo1_interrupt) s ready h next =
      service_then rest fifo1_interrupt s ready (λ k. cc k) (h refl) next
  handle_event-Ended rest (zero, other n) s ready h next =
      service_then rest (other n) s ready (λ k. cc k) (h refl) next

  serve-Ended :
      (fuel : ℕ) (s : State W)
      → Ready a f reference s
      → left s.world < fuel
      → Safe Ended (serve p fuel a d s)
  unfolding serve
  serve-Ended zero s ready h = absurd (omega arith)
  serve-Ended (suc fuel) s ready h =
      let r = p.get_current_interrupt_event d s.world in
      call_then p a d f reference left IsPending IsDrained law Ended
        (p.get_current_interrupt_event d) _
        (λ w. (left w ≤ left s.world) × (r.err ≡ 0 → IsPending r.out w)) s ready (law.asks s.world)
        (λ t rt (le, pending).
          handle_event-Ended _ (r.err, r.out) t rt pending
            (λ u ru less. serve-Ended fuel u ru (omega arith)))

  task_if-Ended :
      (fuel : ℕ) (pending : Bool) (s : State W)
      → Ready a f reference s
      → left s.world < fuel
      → Safe Ended (task_if p fuel a d pending s)
  unfolding task_if
  task_if-Ended fuel false s ready h = safe refl
  task_if-Ended fuel true s ready h =
      let (c, e, _, _) = ready.context in
      Safe-continue _ Ended (λ _. serve p fuel a d) _
        (modify_context-Ready a f reference a false s c ready e)
        (λ x t (rt, w, _). serve-Ended fuel t rt (subst (λ v. left v < fuel) (sym w) h))

  task_on-Ended :
      (fuel : ℕ) (s : State W)
      → Ready a f reference s
      → left s.world < fuel
      → Safe Ended (task_on p fuel d (some a) s)
  unfolding task_on get_context
  task_on-Ended fuel s ready h =
      let (c, e, _, _) = ready.context in rw e (task_if-Ended fuel c.irq_pending s ready h)

module _ {W : Type 0} (p : Platform W) (a dev f reference : ℕ) (left : W → ℕ)
    (IsPending : Code → W → Type 0) (IsDrained : W → Type 0) where
  -- From a consistent state, for a device whose context has a receive callback, where `left` bounds
  -- the events that the controller has still to report and each is cleared by what the task does
  -- for it: the task faults nowhere and its loop ends, on any fuel greater than the bound.
  pub task-Ended :
      (fuel : ℕ) (s : State W)
      → Ready a f reference s
      → (s.devices dev).user_driver_data ≡ some a
      → Clears p (s.devices dev) f reference left IsPending IsDrained
      → left s.world < fuel
      → Safe (λ finished t. finished ≡ true) (task p fuel (some dev) s)
  unfolding task
  task-Ended fuel s ready e law h =
      let d = s.devices dev in
      subst (λ o. Safe (λ finished t. finished ≡ true) (task_on p fuel d o s)) (sym e)
        (task_on-Ended p a d f reference left IsPending IsDrained law fuel s ready h)
