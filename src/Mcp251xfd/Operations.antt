-- ===== src/Mcp251xfd/Operations.antt =====
-- The functions of the driver fault nowhere and keep the state consistent.
use leos_sdk.Prelude.{ℕ, ◌<◌, Bool, if_cases, lt-ltb, lt-leb, ◌==◌, ◌≡◌, refl, Option, none, some}
use leos_sdk.Prelude.Maps.{put, put_here}
use leos_sdk.Mcp251xfd.Types.{Hw, Config, Context, Device, Reply, Platform}
use leos_sdk.Mcp251xfd.State.{State, gpio_count, Action, get_context, set_context, set_entry}
use leos_sdk.Mcp251xfd.Driver.{
  zero_device, new_context, linked_device, call, start_chip, register, setup_irq, init_allocated,
  malloc, init, free_context, deinit_context, deinit, set_handler, set_rx_handler, unless_failed,
  checked, mcp_config_of,
}
use leos_sdk.Mcp251xfd.Task.{task, task_on}
use leos_sdk.Mcp251xfd.Consistency.{
  IsConsistent, HasPin, Safe, safe, SameShape-refl, IsConsistent-SameShape, Keeps,
  modify_context-Keeps,
}
use leos_sdk.Mcp251xfd.Stable.{Stable, Stable-bind, Stable-pure, call-Stable}
use leos_sdk.Mcp251xfd.Servicing.{task_on-Stable}
use leos_sdk.Mcp251xfd.Updates.{
  set_device-IsConsistent, set_entry-IsConsistent, discard-IsConsistent, adopt-IsConsistent,
}

module _ {W : Type 0} where
  -- No fault, and a consistent state.
  abbrev pub Succeeds : {A : Type 0} → Option (A × State W) → Type 0
  Succeeds o = Safe (λ _ t. IsConsistent t) o

  pub Succeeds-Keeps :
      {A : Type 0} (s : State W) (o : Option (A × State W))
      → IsConsistent s
      → Keeps s o
      → Succeeds o
  Succeeds-Keeps s none con h = elim h [ ]
  Succeeds-Keeps s (some (x, t)) con (safe same) = safe (IsConsistent-SameShape s t same con)

  unless_failed-Stable :
      (a : ℕ) (r : ℕ × Unit {0}) (rest : Action W ℕ)
      → Stable a rest
      → Stable a (unless_failed r rest)
  unfolding unless_failed
  unless_failed-Stable a (err, _) rest h s con live =
      if_cases (λ (m : Action W ℕ). Keeps s (m s)) (err == 0) (λ _. h s con live)
        (λ _. Stable-pure a err s con live)

  checked-Stable :
      (a : ℕ) (f : W → Reply W (Unit {0})) (rest : Action W ℕ)
      → Stable a rest
      → Stable a (checked f rest)
  unfolding checked
  checked-Stable a f rest h =
      Stable-bind a (call f) _ (call-Stable a f) (λ r. unless_failed-Stable a r rest h)

module _ {W : Type 0} (p : Platform W) where
  start_chip-Stable : (a dev : ℕ) (config : Config) → Stable a (start_chip p dev config)
  unfolding start_chip
  start_chip-Stable a dev config s con live =
      let d = s.devices dev in
      checked-Stable a (p.init_mcp251xfd d (mcp_config_of config)) _
        (checked-Stable a (p.configure_time_stamp d 40) _ (
          checked-Stable a (p.configure_fifo_list d config.fifo config.num_fifos) _ (
            checked-Stable a (p.configure_filter_list d config.filter config.num_filters) _ (
              checked-Stable a (p.request_operation_mode d config.initial_mode) _
                (Stable-pure a 0)))))
        s con live

  register-Succeeds :
      (dev a : ℕ) (hw : Hw) (config : Config) (s : State W)
      → IsConsistent s
      → HasPin hw.pin_irq (s.contexts a)
      → hw.pin_irq < gpio_count
      → Succeeds (register p dev hw config a s)
  unfolding register set_entry
  register-Succeeds dev a hw config s con h bound =
      let t = record s {
        ctx_by_gpio = put s.ctx_by_gpio hw.pin_irq (some a);
        devices = put s.devices dev (linked_device (s.devices dev) hw);
      } in
      let con_t : IsConsistent t =
        set_device-IsConsistent _ dev (linked_device (s.devices dev) hw)
          (set_entry-IsConsistent s hw.pin_irq a con h) (λ b e. e) in
      rw (lt-ltb bound) (
        Succeeds-Keeps t _ con_t (
          Stable-bind a _ _ (call-Stable a (p.sleep_ms 3)) (λ _. start_chip-Stable a dev config) t
            con_t (h.0, h.1)))

  init_allocated-Succeeds :
      (dev a : ℕ) (hw : Hw) (config : Config) (attach : Bool) (s : State W)
      → IsConsistent s
      → s.contexts a ≡ none
      → hw.pin_irq < gpio_count
      → Succeeds (init_allocated p dev hw config attach (some a) s)
  unfolding init_allocated set_context setup_irq
  init_allocated-Succeeds dev a hw config attach s con new bound = rw (lt-leb bound) (
      register-Succeeds dev a hw config _
        (adopt-IsConsistent s dev a (record (s.devices dev) { user_driver_data = some a })
          (new_context hw config) _ con new bound refl)
        (new_context hw config, put_here s.contexts a (some (new_context hw config)), refl) bound)

  -- The heap gives out addresses that hold no context.
  pub record Lawful : Type 0 where
    pub fresh :
        (contexts : ℕ → Option Context) (w : W) (a : ℕ)
        → (p.malloc contexts w).0 ≡ some a
        → contexts a ≡ none

  init_malloc-Succeeds :
      (dev : ℕ) (hw : Hw) (config : Config) (attach : Bool) (s : State W) (o : Option ℕ)
      → IsConsistent s
      → ((a : ℕ) → o ≡ some a → s.contexts a ≡ none)
      → hw.pin_irq < gpio_count
      → Succeeds (init_allocated p dev hw config attach o s)
  unfolding init_allocated
  init_malloc-Succeeds dev hw config attach s none con new bound = safe con
  init_malloc-Succeeds dev hw config attach s (some a) con new bound =
      init_allocated-Succeeds dev a hw config attach s con (new a refl) bound

  pub init-Succeeds :
      (law : Lawful) (dev : ℕ) (hw : Hw) (config : Config) (attach : Bool) (s : State W)
      → IsConsistent s
      → hw.pin_irq < gpio_count
      → Succeeds (init p dev hw config attach s)
  unfolding init malloc
  init-Succeeds law dev hw config attach s con bound =
      let t : State W = record s { devices = put s.devices dev zero_device } in
      let con_t : IsConsistent t =
        set_device-IsConsistent s dev zero_device con (λ b e. absurd (cc e)) in
      init_malloc-Succeeds dev hw config attach _ _
        (IsConsistent-SameShape t _ (SameShape-refl t _) con_t)
        (λ a e. law.fresh s.contexts s.world a e) bound

  deinit_context-Succeeds :
      (dev : ℕ) (o : Option ℕ) (s : State W)
      → IsConsistent s
      → (s.devices dev).user_driver_data ≡ o
      → Succeeds (deinit_context p dev o s)
  unfolding deinit_context get_context set_entry free_context
  deinit_context-Succeeds dev none s con e = safe con
  deinit_context-Succeeds dev (some a) s con e =
      let (c, ec, bound) = con.owned dev a e in
      rw (ec, lt-ltb bound, ec)
        (safe (
          discard-IsConsistent s dev a c (record (s.devices dev) { user_driver_data = none }) _ con
            ec e refl))

  pub deinit-Succeeds : (dev : Option ℕ) (s : State W) → IsConsistent s → Succeeds (deinit p dev s)
  unfolding deinit
  deinit-Succeeds none s con = safe con
  deinit-Succeeds (some dev) s con =
      deinit_context-Succeeds dev (s.devices dev).user_driver_data s con refl

  set_handler-Succeeds :
      (dev : ℕ) (callback : Option ℕ) (user_reference : ℕ) (o : Option ℕ) (s : State W)
      → IsConsistent s
      → (s.devices dev).user_driver_data ≡ o
      → Succeeds (set_handler p callback user_reference o s)
  unfolding set_handler
  set_handler-Succeeds dev callback user_reference none s con e = safe con
  set_handler-Succeeds dev callback user_reference (some a) s con e =
      let (c, ec, bound) = con.owned dev a e in
      Succeeds-Keeps s _ con (modify_context-Keeps a _ s c (λ c. refl) ec)

  pub set_rx_handler-Succeeds :
      (dev : Option ℕ) (callback : Option ℕ) (user_reference : ℕ) (s : State W)
      → IsConsistent s
      → Succeeds (set_rx_handler p dev callback user_reference s)
  unfolding set_rx_handler
  set_rx_handler-Succeeds none callback user_reference s con = safe con
  set_rx_handler-Succeeds (some dev) callback user_reference s con =
      set_handler-Succeeds dev callback user_reference (s.devices dev).user_driver_data s con refl

  task_on-Succeeds :
      (fuel dev : ℕ) (d : Device) (o : Option ℕ) (s : State W)
      → IsConsistent s
      → (s.devices dev).user_driver_data ≡ o
      → Succeeds (task_on p fuel d o s)
  unfolding task_on
  task_on-Succeeds fuel dev d none s con e = safe con
  task_on-Succeeds fuel dev d (some a) s con e =
      let (c, ec, bound) = con.owned dev a e in
      Succeeds-Keeps s _ con (task_on-Stable p a d fuel s con (c, ec))

  pub task-Succeeds :
      (fuel : ℕ) (dev : Option ℕ) (s : State W) → IsConsistent s → Succeeds (task p fuel dev s)
  unfolding task
  task-Succeeds fuel none s con = safe con
  task-Succeeds fuel (some dev) s con =
      task_on-Succeeds fuel dev (s.devices dev) (s.devices dev).user_driver_data s con refl
