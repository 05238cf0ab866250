-- ===== src/Mcp251xfd/Lifecycle.antt =====
-- The end of a device's life, and of one whose start failed.
use leos_sdk.Prelude.{
  ℕ, ◌<◌, ◌≤◌, Bool, true, false, if◌then◌else◌, leb, lt-ltb, le-leb, le-ltb, if_cases, ◌≡◌, ◌≢◌,
  refl, ap, Option, none, some,
}
use leos_sdk.Prelude.Maps.{put, put_here, put_other}
use leos_sdk.Mcp251xfd.Types.{Hw, Config, Context, Device, Platform}
use leos_sdk.Mcp251xfd.State.{State, gpio_count, get_context, set_context, set_entry}
use leos_sdk.Mcp251xfd.Driver.{
  new_context, setup_irq, init_allocated, malloc, init, free_context, deinit_context, deinit,
  irq_handler, latch,
}
use leos_sdk.Mcp251xfd.Task.{task, task_on}
use leos_sdk.Mcp251xfd.Consistency.{Safe, safe}

module _ {W : Type 0} (p : Platform W) where
  -- What deinit leaves of a device with the context `a`.
  pub record IsGone (dev a pin : ℕ) (s t : State W) : Type 0 where
    pub device : t.devices dev ≡ record (s.devices dev) { user_driver_data = none }
    pub other_devices : (e : ℕ) → e ≢ dev → t.devices e ≡ s.devices e
    pub freed : t.contexts a ≡ none
    pub no_entry : t.ctx_by_gpio pin ≡ none
    pub other_contexts : (b : ℕ) → b ≢ a → t.contexts b ≡ s.contexts b
    pub other_entries : (gpio : ℕ) → gpio ≢ pin → t.ctx_by_gpio gpio ≡ s.ctx_by_gpio gpio
    pub world : t.world ≡ p.free a (p.gpio_set_irq_enabled pin false s.world)
    pub silent : (falling : Bool) → irq_handler pin falling t ≡ some (tt, t)
    pub idle : (fuel : ℕ) → task p fuel (some dev) t ≡ some (true, t)

  silent_lem :
      (t : State W) (gpio : ℕ) (falling : Bool)
      → t.ctx_by_gpio gpio ≡ none
      → irq_handler gpio falling t ≡ some (tt, t)
  unfolding irq_handler latch
  silent_lem t gpio false e = refl
  silent_lem t gpio true e =
      if_cases (λ o. o ≡ some (tt, t)) (leb gpio_count gpio) (λ _. refl) (λ _. rw e refl)

  idle_lem :
      (t : State W) (dev fuel : ℕ)
      → (t.devices dev).user_driver_data ≡ none
      → task p fuel (some dev) t ≡ some (true, t)
  unfolding task task_on
  idle_lem t dev fuel e = rw e refl

  deinit_context-IsGone :
      (dev a : ℕ) (c : Context) (s : State W)
      → s.contexts a ≡ some c
      → c.hw.pin_irq < gpio_count
      → Safe (λ _ t. IsGone dev a c.hw.pin_irq s t) (deinit_context p dev (some a) s)
  unfolding deinit_context get_context set_entry free_context
  deinit_context-IsGone dev a c s e bound =
      rw (e, lt-ltb bound, e)
        (safe (record {
          device = put_here s.devices dev _;
          other_devices = λ e ne. put_other s.devices dev _ e ne;
          freed = put_here s.contexts a none;
          no_entry = put_here s.ctx_by_gpio c.hw.pin_irq none;
          other_contexts = λ b ne. put_other s.contexts a none b ne;
          other_entries = λ gpio ne. put_other s.ctx_by_gpio c.hw.pin_irq none gpio ne;
          world = refl;
          silent = λ falling.
              silent_lem _ c.hw.pin_irq falling (put_here s.ctx_by_gpio c.hw.pin_irq none);
          idle = λ fuel.
              idle_lem _ dev fuel
                (ap (λ (d : Device). d.user_driver_data) (put_here s.devices dev _));
        }))

  deinit_data-IsGone :
      (dev a : ℕ) (o : Option ℕ) (c : Context) (s : State W)
      → o ≡ some a
      → s.contexts a ≡ some c
      → c.hw.pin_irq < gpio_count
      → Safe (λ _ t. IsGone dev a c.hw.pin_irq s t) (deinit_context p dev o s)
  deinit_data-IsGone dev a o c s eo e bound = rw eo (deinit_context-IsGone dev a c s e bound)

  -- To deinitialize a device with an allocated context of a pin below 48 does not fault: it frees
  -- the context, after the pin's interrupt is disabled, and clears the entry of that pin and the
  -- device's data pointer; the device's other fields, the other devices, contexts and entries stay,
  -- and an interrupt on the pin and the device's task then do nothing.
  pub deinit-IsGone :
      (dev a : ℕ) (c : Context) (s : State W)
      → (s.devices dev).user_driver_data ≡ some a
      → s.contexts a ≡ some c
      → c.hw.pin_irq < gpio_count
      → Safe (λ _ t. IsGone dev a c.hw.pin_irq s t) (deinit p (some dev) s)
  unfolding deinit
  deinit-IsGone dev a c s user e bound =
      deinit_data-IsGone dev a (s.devices dev).user_driver_data c s user e bound

  deinit_outside :
      (t : State W) (dev a : ℕ) (o : Option ℕ) (c : Context)
      → o ≡ some a
      → t.contexts a ≡ some c
      → gpio_count ≤ c.hw.pin_irq
      → deinit_context p dev o t ≡ none
  unfolding deinit_context get_context set_entry
  deinit_outside t dev a o c eo e out = rw (eo, e, le-ltb out) refl

  deinit_dev_outside :
      (t : State W) (dev a : ℕ) (c : Context)
      → (t.devices dev).user_driver_data ≡ some a
      → t.contexts a ≡ some c
      → gpio_count ≤ c.hw.pin_irq
      → deinit p (some dev) t ≡ none
  unfolding deinit
  deinit_dev_outside t dev a c user e out =
      deinit_outside t dev a (t.devices dev).user_driver_data c user e out

  -- What an init with these arguments that is refused for its pin leaves: the error, the context
  -- that it allocated at `a`, which the device still names, a pin for which no state's table has an
  -- entry to write, and a device that cannot be deinitialized without a fault.
  pub record IsTrapped (dev a : ℕ) (hw : Hw) (config : Config) (err : ℕ) (t : State W)
      : Type 0 where
    pub refused : err ≡ p.err_out_of_range
    pub named : (t.devices dev).user_driver_data ≡ some a
    pub allocated : t.contexts a ≡ some (new_context hw config)
    pub outside : (entry : Option ℕ) (u : State W) → set_entry hw.pin_irq entry u ≡ none
    pub faults : deinit p (some dev) t ≡ none

  set_entry_outside :
      (pin : ℕ) (entry : Option ℕ) (u : State W) → gpio_count ≤ pin → set_entry pin entry u ≡ none
  unfolding set_entry
  set_entry_outside pin entry u out = rw (le-ltb out) refl

  init_allocated_outside :
      (dev a : ℕ) (hw : Hw) (config : Config) (attach : Bool) (s : State W)
      → gpio_count ≤ hw.pin_irq
      → Safe (IsTrapped dev a hw config) (init_allocated p dev hw config attach (some a) s)
  unfolding init_allocated set_context setup_irq
  init_allocated_outside dev a hw config attach s out =
      let d : Device = record (s.devices dev) { user_driver_data = some a } in
      let w : W = p.gpio_set_irq_enabled hw.pin_irq true (
        p.irq_set_enabled (
          if attach
          then p.gpio_set_irq_callback (p.gpio_setup hw.pin_irq s.world)
          else p.gpio_setup hw.pin_irq s.world)) in
      let t : State W = record s {
        contexts = put s.contexts a (some (new_context hw config));
        devices = put s.devices dev d;
        world = w;
      } in
      let user = ap (λ (x : Device). x.user_driver_data) (put_here s.devices dev d) in
      let context = put_here s.contexts a (some (new_context hw config)) in
      rw (le-leb out) (
        safe (record {
          refused = refl;
          named = user;
          allocated = context;
          outside = λ entry u. set_entry_outside hw.pin_irq entry u out;
          faults = deinit_dev_outside t dev a (new_context hw config) user context out;
        }))

  init_malloc_outside :
      (dev a : ℕ) (hw : Hw) (config : Config) (attach : Bool) (s : State W) (o : Option ℕ)
      → o ≡ some a
      → gpio_count ≤ hw.pin_irq
      → Safe (IsTrapped dev a hw config) (init_allocated p dev hw config attach o s)
  init_malloc_outside dev a hw config attach s o e out =
      rw e (init_allocated_outside dev a hw config attach s out)

  -- For an interrupt pin of 48 or more, where malloc succeeds, init answers the error for a value
  -- out of range and does not fault; the context stays allocated and the device names it. The table
  -- has no entry for that pin in any state, and to deinitialize the device then faults.
  pub deinit-init_outside :
      (dev a : ℕ) (hw : Hw) (config : Config) (attach : Bool) (s : State W)
      → (p.malloc s.contexts s.world).0 ≡ some a
      → gpio_count ≤ hw.pin_irq
      → Safe (IsTrapped dev a hw config) (init p dev hw config attach s)
  unfolding init malloc
  deinit-init_outside dev a hw config attach s e out =
      init_malloc_outside dev a hw config attach _ _ e out
