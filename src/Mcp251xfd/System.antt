-- ===== src/Mcp251xfd/System.antt =====
-- Any sequence of calls of the driver, interrupts and outside changes.
use leos_sdk.Prelude.{ℕ, ◌<◌, Bool, Option, none, List, [], ◌∷◌}
use leos_sdk.Mcp251xfd.Types.{Hw, Config, Platform}
use leos_sdk.Mcp251xfd.State.{State, gpio_count, Action, pure, continue, ◌>>◌, effect}
use leos_sdk.Mcp251xfd.Driver.{zero_device, init, deinit, irq_handler, set_rx_handler}
use leos_sdk.Mcp251xfd.Task.{task}
use leos_sdk.Mcp251xfd.Consistency.{IsConsistent, safe, Safe-continue}
use leos_sdk.Mcp251xfd.Stable.{irq_handler-Keeps}
use leos_sdk.Mcp251xfd.Operations.{
  Succeeds, Succeeds-Keeps, Lawful, init-Succeeds, deinit-Succeeds, set_rx_handler-Succeeds,
  task-Succeeds,
}

-- A device pointer may be NULL where the function tests it.
pub data Call (W : Type 0) : Type 0 where
  inits : ℕ → Hw → Config → Bool → Call W
  deinits : Option ℕ → Call W
  interrupts : ℕ → Bool → Call W
  sets_rx_handler : Option ℕ → Option ℕ → ℕ → Call W
  tasks : ℕ → Option ℕ → Call W
  changes : (W → W) → Call W

-- The interrupt pins have an entry in the table.
abbrev pub IsAllowed : {W : Type 0} → Call W → Type 0
IsAllowed (inits dev hw config attach) = hw.pin_irq < gpio_count
IsAllowed (deinits dev) = Unit {0}
IsAllowed (interrupts gpio falling) = Unit {0}
IsAllowed (sets_rx_handler dev callback user_reference) = Unit {0}
IsAllowed (tasks fuel dev) = Unit {0}
IsAllowed (changes f) = Unit {0}

abbrev pub AllAllowed : {W : Type 0} → List (Call W) → Type 0
AllAllowed [] = Unit {0}
AllAllowed (c ∷ cs) = IsAllowed c × AllAllowed cs

-- Before the first call.
abbrev pub boot : {W : Type 0} → W → State W
boot w = record {
  ctx_by_gpio = λ pin. none;
  contexts = λ a. none;
  devices = λ dev. zero_device;
  world = w;
}

module _ {W : Type 0} (p : Platform W) where
  unfoldable pub step : Call W → Action W (Unit {0})
  step (inits dev hw config attach) = do init p dev hw config attach; pure tt
  step (deinits dev) = deinit p dev
  step (interrupts gpio falling) = irq_handler gpio falling
  step (sets_rx_handler dev callback user_reference) = set_rx_handler p dev callback user_reference
  step (tasks fuel dev) = do task p fuel dev; pure tt
  step (changes f) = effect f

  unfoldable pub run : List (Call W) → Action W (Unit {0})
  unfolding step
  run [] = pure tt
  run (c ∷ cs) = step c >> run cs

  forget :
      {A : Type 0} (o : Option (A × State W)) → Succeeds o → Succeeds (continue (λ _. pure tt) o)
  forget o h =
      Safe-continue (λ _ t. IsConsistent t) (λ _ t. IsConsistent t) (λ _. pure tt) o h
        (λ _ t con. safe con)

  step-Succeeds :
      (law : Lawful p) (c : Call W) (s : State W)
      → IsAllowed c
      → IsConsistent s
      → Succeeds (step c s)
  unfolding step
  step-Succeeds law (inits dev hw config attach) s ok con =
      forget (init p dev hw config attach s) (init-Succeeds p law dev hw config attach s con ok)
  step-Succeeds law (deinits dev) s ok con = deinit-Succeeds p dev s con
  step-Succeeds law (interrupts gpio falling) s ok con =
      Succeeds-Keeps s _ con (irq_handler-Keeps gpio falling s con)
  step-Succeeds law (sets_rx_handler dev callback user_reference) s ok con =
      set_rx_handler-Succeeds p dev callback user_reference s con
  step-Succeeds law (tasks fuel dev) s ok con =
      forget (task p fuel dev s) (task-Succeeds p fuel dev s con)
  step-Succeeds law (changes f) s ok con =
      safe (record { entry = con.entry; owned = con.owned; unique = con.unique })

  run-Succeeds :
      (law : Lawful p) (cs : List (Call W)) (s : State W)
      → AllAllowed cs
      → IsConsistent s
      → Succeeds (run cs s)
  unfolding run
  run-Succeeds law [] s ok con = safe con
  run-Succeeds law (c ∷ cs) s (ok, oks) con =
      Safe-continue (λ _ t. IsConsistent t) (λ _ t. IsConsistent t) (λ _. run cs) (step c s)
        (step-Succeeds law c s ok con) (λ _ t con_t. run-Succeeds law cs t oks con_t)

  boot-IsConsistent : (w : W) → IsConsistent (boot w)
  boot-IsConsistent w = record {
    entry = λ pin a e. absurd (cc e);
    owned = λ dev a e. absurd (cc e);
    unique = λ dev dev' a e e'. absurd (cc e);
  }

  -- Where malloc gives out addresses that hold no context, and interrupt pins are below 48: from
  -- the start, no sequence of calls of the driver, of interrupts, also during calls of the
  -- library, and of outside changes reads or writes a context that is not allocated, frees one
  -- twice or writes outside the table; and afterwards each entry of the table leads to an
  -- allocated context of that pin, each device to an allocated context of its own, with a pin
  -- below 48, or to none.
  pub run-boot-Succeeds :
      (law : Lawful p) (cs : List (Call W)) (w : W) → AllAllowed cs → Succeeds (run cs (boot w))
  run-boot-Succeeds law cs w ok = run-Succeeds law cs (boot w) ok (boot-IsConsistent w)
