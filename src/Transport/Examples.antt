-- ===== src/Transport/Examples.antt =====
-- The theorems at a controller whose queue is full, and at one with frames waiting.
use leos_sdk.Prelude.{
  ℕ, zero, suc, ◌+◌, ◌-◌, ◌≤◌, ◌<◌, true, false, arith, List, [], ◌∷◌, some, ◌≡◌, refl, ltb, ◌==◌,
  contains,
}
use leos_sdk.Prelude.Int.{pos}
use leos_sdk.Cyphal.Node.{message, State}
use leos_sdk.Cyphal.Calls.{subscribes, Book, no_book, run}
use leos_sdk.Cyphal.System.{started}
use leos_sdk.Cyphal.Simulation.{
  Sim, simulation, sim_view, simulation-Lawful, no_objects, no_handlers,
}
use leos_sdk.Transport.Delivery.{calls_of, Observes}
use leos_sdk.Transport.Reaching.{rx_process-run}
use leos_sdk.Transport.Receive.{Received, Receiver, rx_process}
use leos_sdk.Transport.Behaviour.{Behaves, returned}
use leos_sdk.Transport.Draining.{Drained, rx_process-Drained}
use leos_sdk.Transport.Transmit.{Frame, Controller, bytes_to_dlc}
use leos_sdk.Transport.Frames.{dlc_bytes, bytes_to_dlc-dlc_bytes}

-- The state is the number of messages waiting, at most two.
abbrev two_places : Controller ℕ
two_places = record {
  txq_status = λ w. (0, elim w [ zero ↦ true | suc zero ↦ true | _ ↦ false ], w);
  reset_txq = λ w. 0;
  transmit = λ msg w. (0, suc w);
}

abbrev a_frame : Frame
a_frame = record { extended_can_id = 0x107D552A; payload_size = 3; payload = 1 ∷ 2 ∷ 0xE0 ∷ [] }

bytes_to_dlc-dlc_bytes_example :
    (bytes_to_dlc 33 < 16)
    × (33 ≤ dlc_bytes (bytes_to_dlc 33))
    × ((d : ℕ) → d < 16 → 33 ≤ dlc_bytes d → bytes_to_dlc 33 ≤ d)
bytes_to_dlc-dlc_bytes_example = bytes_to_dlc-dlc_bytes 33 (omega arith)

-- A controller with frames waiting, and a heap that counts the payloads that are not released.
record Station : Type 0 where
  waiting : ℕ
  held : ℕ

abbrev a_message : Received
a_message = record { id = 0x107D552A; dlc = 2; payload_data = 1 ∷ 0xE0 ∷ []; timestamp_us = 5 }

abbrev receive : ℕ → ℕ → ℕ × Received × Station
receive zero h = (1, a_message, record { waiting = 0; held = h })
receive (suc n) h = (0, a_message, record { waiting = n; held = h })

receive-takes : (n h : ℕ) → ((receive n h).0 == 0) ≡ true → (receive n h).2.waiting < n
receive-takes zero h e = absurd (ground arith)
receive-takes (suc n) h e = omega arith

receive-waiting : (n h : ℕ) → (receive n h).2.waiting ≤ n
receive-waiting zero h = omega arith
receive-waiting (suc n) h = omega arith

receive-held : (n h : ℕ) → (receive n h).2.held ≡ h
receive-held zero h = refl
receive-held (suc n) h = refl

-- Each frame is a complete transfer for the subscription at 3, with its payload at 7.
abbrev station : Receiver Station
station = record {
  fifo_status = λ w. (0, ltb 0 w.waiting, w);
  receive_message = λ w. receive w.waiting w.held;
  dlc_to_byte = λ n. n;
  rx_accept = λ t id bytes size w.
      (pos 1, record { payload = some 7; subscription = some 3 }, record w { held = 1 + w.held });
  stored = λ r. r;
  deallocate = λ p w. record w { held = w.held - returned p };
  handlers = λ w a. record { user_reference = some a; callback = 100; user_ref = 0 };
  run_callback = λ c t w. w;
}

station-Behaves : Behaves station (λ w. w.waiting) (λ w. w.held)
station-Behaves = record {
  status_pending = λ w. omega arith;
  status_owned = λ w. refl;
  receive_takes = λ w e. receive-takes w.waiting w.held e;
  receive_pending = λ w. receive-waiting w.waiting w.held;
  receive_owned = λ w. receive-held w.waiting w.held;
  accept_pending = λ t id bytes size w. omega arith;
  accept_owned = λ t id bytes size w. refl;
  stored = λ r. refl;
  deallocate_pending = λ p w. omega arith;
  deallocate_owned = λ p w n e. omega arith;
  callback_pending = λ c t w. omega arith;
  callback_owned = λ c t w. refl;
}

abbrev three_waiting : Station
three_waiting = record { waiting = 3; held = 0 }

rx_process-Drained_example :
    Drained station
      (λ w. w.waiting)
      (λ w. w.held)
      0
      three_waiting
      (rx_process station 4 three_waiting)
rx_process-Drained_example =
    rx_process-Drained station (λ w. w.waiting) (λ w. w.held) station-Behaves 4 three_waiting
      (omega arith) (omega arith)

-- The port 7 is subscribed for messages, and then again with another callback.
abbrev subscribed_twice : Book × State Sim
subscribed_twice =
    run simulation (λ p. message) (subscribes 7 64 5 9 ∷ subscribes 7 64 8 2 ∷ [])
      (no_book, started simulation sim_view (λ p. message) simulation-Lawful no_objects no_handlers)

-- A station that also keeps the ports of the transfers and the calls of callbacks.
record Desk : Type 0 where
  waiting : ℕ
  held : ℕ
  ports : List ℕ
  log : List (ℕ × ℕ)

abbrev take_message : ℕ → Desk → ℕ × Received × Desk
take_message zero w = (1, a_message, w)
take_message (suc n) w = (0, a_message, record w { waiting = n })

take_message-waiting : (n : ℕ) (w : Desk) → n ≡ w.waiting → (take_message n w).2.waiting ≤ w.waiting
take_message-waiting zero w e = omega arith
take_message-waiting (suc n) w e = omega arith

take_message-takes :
    (n : ℕ) (w : Desk)
    → n ≡ w.waiting
    → ((take_message n w).0 == 0) ≡ true
    → (take_message n w).2.waiting < w.waiting
take_message-takes zero w e one = absurd (ground arith)
take_message-takes (suc n) w e one = omega arith

take_message-same :
    (n : ℕ) (w : Desk)
    → let v = (take_message n w).2 in (v.held ≡ w.held) × (v.ports ≡ w.ports) × (v.log ≡ w.log)
take_message-same zero w = (refl, refl, refl)
take_message-same (suc n) w = (refl, refl, refl)

-- Each frame is a complete transfer of the port 7.
abbrev desk : Receiver Desk
desk = record {
  fifo_status = λ w. (0, ltb 0 w.waiting, w);
  receive_message = λ w. take_message w.waiting w;
  dlc_to_byte = λ n. n;
  rx_accept = λ t id bytes size w. (
    pos 1,
    record {
      payload = some 7;
      subscription = sim_view.registered subscribed_twice.1.world message 7;
    },
    record w { held = 1 + w.held; ports = 7 ∷ w.ports },
  );
  stored = λ r. r;
  deallocate = λ p w. record w { held = w.held - returned p };
  handlers = λ w a. subscribed_twice.1.handlers a;
  run_callback = λ c t w. record w { log = c ∷ w.log };
}

desk-Behaves : Behaves desk (λ w. w.waiting) (λ w. w.held)
desk-Behaves = record {
  status_pending = λ w. omega arith;
  status_owned = λ w. refl;
  receive_takes = λ w e. take_message-takes w.waiting w refl e;
  receive_pending = λ w. take_message-waiting w.waiting w refl;
  receive_owned = λ w. (take_message-same w.waiting w).0;
  accept_pending = λ t id bytes size w. omega arith;
  accept_owned = λ t id bytes size w. refl;
  stored = λ r. refl;
  deallocate_pending = λ p w. omega arith;
  deallocate_owned = λ p w n e. omega arith;
  callback_pending = λ c t w. omega arith;
  callback_owned = λ c t w. refl;
}

desk-Observes :
    Observes desk
      (λ p. sim_view.registered subscribed_twice.1.world message p)
      (λ w. w.ports)
      (λ w. w.log)
desk-Observes = record {
  status = λ w. (refl, refl, refl);
  receive = λ w. let (_, p, l) = take_message-same w.waiting w in (refl, p, l);
  accept = λ t id bytes size w. (refl, refl, (7, refl, refl));
  deallocate = λ o w. (refl, refl, refl);
  callback = λ c t w. (refl, refl, refl);
}

abbrev two_frames : Desk
two_frames = record { waiting = 2; held = 0; ports = []; log = [] }

rx_process-run_example :
    (n : ℕ) × (v : Desk) × (rx_process desk 3 two_frames ≡ some (n, v))
    × (v.log ≡ calls_of subscribed_twice.0 v.ports)
unfolding contains
rx_process-run_example =
    rx_process-run simulation sim_view (λ p. message) simulation-Lawful desk (λ w. w.waiting)
      (λ w. w.held) (λ w. w.ports) (λ w. w.log) (7 ∷ [])
      (subscribes 7 64 5 9 ∷ subscribes 7 64 8 2 ∷ []) no_objects no_handlers 3 two_frames
      (omega arith) (refl, (refl, refl)) (λ q. refl) desk-Behaves desk-Observes refl refl refl
      (omega arith) (omega arith)
