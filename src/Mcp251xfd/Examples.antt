-- ===== src/Mcp251xfd/Examples.antt =====
-- The theorems at examples, and the CRC at the usual test message, the nine digits "123456789".
use leos_sdk.Prelude.{ℕ, ◌≡◌, ◌/◌, ◌%◌, ◌^◌, ◌<◌, ◌++◌, refl, sym, ◌∙◌, List, [], ◌∷◌, length}
use leos_sdk.Prelude.{true, false, none, some, arith}
use mathlib.Core.Path.{subst}
use mathlib.Core.Option.{some-injective}
use leos_sdk.Prelude.Maps.{put, put_cases}
use leos_sdk.Mcp251xfd.Types.{Device, Code, error_interrupt, txq_interrupt, fifo1_interrupt, other}
use leos_sdk.Mcp251xfd.State.{State}
use leos_sdk.Mcp251xfd.Driver.{zero_device, new_context, init, deinit}
use leos_sdk.Mcp251xfd.Task.{serve, task}
use leos_sdk.Mcp251xfd.Consistency.{Safe, HasPin, InTable}
use leos_sdk.Mcp251xfd.Operations.{Succeeds}
use leos_sdk.Mcp251xfd.System.{
  Call, inits, deinits, interrupts, tasks, boot, run, run-boot-Succeeds,
}
use leos_sdk.Mcp251xfd.Lifecycle.{IsGone, IsTrapped, deinit-IsGone, deinit-init_outside}
use leos_sdk.Mcp251xfd.Stuck.{Stays, Insists, fifo1, serve-Stays}
use leos_sdk.Mcp251xfd.Ready.{Ready}
use leos_sdk.Mcp251xfd.Finishing.{task-Ended}
use leos_sdk.Mcp251xfd.Simulation.{
  insisting, insisting-Lawful, clearing, clearing-Clears, IsFirst, pins, settings,
}
use leos_sdk.Mcp251xfd.Debug.{decimal_spaced, print_error_status}
use leos_sdk.Log.Text.{codes, decimal_onto, decimal}
use leos_sdk.Mcp251xfd.Residue.{crc16_cms-append}
use leos_sdk.Mcp251xfd.Crc.{shift_bit, shift_bits, add_byte, add_bytes, crc16_cms}

nine_digits : crc16_cms (0x31 ∷ 0x32 ∷ 0x33 ∷ 0x34 ∷ 0x35 ∷ 0x36 ∷ 0x37 ∷ 0x38 ∷ 0x39 ∷ []) ≡ 0x4B37
unfolding crc16_cms add_bytes add_byte shift_bits shift_bit
nine_digits = refl

abbrev a_message : List ℕ
a_message = 0x31 ∷ 0x32 ∷ 0x33 ∷ []

crc16_cms-append_example :
    (crc16_cms a_message < 2 ^ 16)
    × (crc16_cms (a_message ++ (crc16_cms a_message % 256 ∷ crc16_cms a_message / 256 ∷ [])) ≡ 0)
crc16_cms-append_example = crc16_cms-append a_message

abbrev two_devices : List (Call ℕ)
two_devices =
    inits 0 (pins 5) settings true
    ∷ inits 1 (pins 6) settings false
    ∷ interrupts 6 true
    ∷ tasks 3 (some 1)
    ∷ deinits (some 0)
    ∷ interrupts 5 true
    ∷ tasks 3 (some 0)
    ∷ []

run-boot-Succeeds_example : Succeeds (run (insisting txq_interrupt) two_devices (boot 0))
run-boot-Succeeds_example =
    run-boot-Succeeds (insisting txq_interrupt) (insisting-Lawful txq_interrupt) two_devices 0
      (omega arith, (omega arith, (tt, (tt, (tt, (tt, (tt, tt)))))))

deinit-init_outside_example :
    Safe
      (IsTrapped (insisting txq_interrupt) 0 0 (pins 50) settings)
      (init (insisting txq_interrupt) 0 (pins 50) settings false (boot 0))
deinit-init_outside_example =
    deinit-init_outside (insisting txq_interrupt) 0 0 (pins 50) settings false (boot 0) refl
      (omega arith)

-- One device with its context at 7, and no callback.
abbrev one_device : State ℕ
one_device = record {
  ctx_by_gpio = put (λ gpio. none) 5 (some 7);
  contexts = put (λ a. none) 7 (some (new_context (pins 5) settings));
  devices = put (λ dev. zero_device) 0 (record zero_device { user_driver_data = some 7 });
  world = 0;
}

deinit-IsGone_example :
    Safe
      (λ _ t. IsGone (insisting txq_interrupt) 0 7 5 one_device t)
      (deinit (insisting txq_interrupt) (some 0) one_device)
deinit-IsGone_example =
    deinit-IsGone (insisting txq_interrupt) 0 7 (new_context (pins 5) settings) one_device refl refl
      (omega arith)

abbrev Always : ℕ → Type 0
Always w = w ≡ w

silent_fifo : Insists (insisting fifo1_interrupt) Always zero_device none
silent_fifo =
    fifo1 refl (λ w h. record { no_error = refl; answer = refl; no_edges = refl; after = refl })
      (λ w h. record { no_error = refl; answer = refl; no_edges = refl; after = refl })
      (λ w h. record { no_error = refl; answer = refl; no_edges = refl; after = refl })
      (λ w h. record { no_error = refl; answer = refl; no_edges = refl; after = refl })

serve-Stays_example :
    Stays Always one_device false (serve (insisting fifo1_interrupt) 1000 7 zero_device one_device)
serve-Stays_example =
    serve-Stays (insisting fifo1_interrupt) Always 7 zero_device (new_context (pins 5) settings)
      silent_fifo 1000 one_device refl refl

abbrev owner : Device
owner = record zero_device { user_driver_data = some 7 }

-- One device with its context at 7 and the callback 3, while four events are pending.
abbrev busy_device : State (List Code)
busy_device = record {
  ctx_by_gpio = put (λ gpio. none) 5 (some 7);
  contexts =
      put (λ a. none) 7
        (some (record (new_context (pins 5) settings) {
          irq_pending = true;
          rx_cb = some 3;
          cb_user_reference = 9;
        }));
  devices = put (λ dev. zero_device) 0 owner;
  world = fifo1_interrupt ∷ error_interrupt ∷ txq_interrupt ∷ other 12 ∷ [];
}

only_device : (dev a : ℕ) → (busy_device.devices dev).user_driver_data ≡ some a → dev ≡ 0
only_device dev a =
    put_cases (λ k (d : Device). d.user_driver_data ≡ some a → k ≡ 0) (λ dev. zero_device) 0 owner
      dev (λ _. refl) (λ _ e. absurd (cc e))

busy_device-Ready : Ready 7 3 9 busy_device
busy_device-Ready = record {
  con = record {
    entry = λ pin a.
        put_cases (λ k o. o ≡ some a → HasPin k (busy_device.contexts a)) (λ gpio. none) 5 (some 7)
          pin
          (λ e.
            subst (λ b. HasPin 5 (busy_device.contexts b)) (some-injective _ _ e) (_, refl, refl))
          (λ _ e. absurd (cc e));
    owned = λ dev a.
        put_cases (λ k (d : Device). d.user_driver_data ≡ some a → InTable (busy_device.contexts a))
          (λ dev. zero_device) 0 owner dev
          (λ e.
            subst (λ b. InTable (busy_device.contexts b)) (some-injective _ _ e)
              (_, refl, omega arith))
          (λ _ e. absurd (cc e));
    unique = λ dev dev' a e e'. only_device dev a e ∙ sym (only_device dev' a e');
  };
  context = (_, refl, refl, refl);
}

task-Ended_example : Safe (λ finished t. finished ≡ true) (task clearing 5 (some 0) busy_device)
task-Ended_example =
    task-Ended clearing 7 0 3 9 (λ w. length w) IsFirst (IsFirst fifo1_interrupt) 5 busy_device
      busy_device-Ready refl (clearing-Clears _ 3 9) (omega arith)

print_error_status_quiet :
    print_error_status (λ status flag. false) 0 7 128 0 ≡ codes "TEC:   7 | REC: 128 | Status: OK\n"
unfolding print_error_status decimal_spaced decimal decimal_onto
print_error_status_quiet = refl
