-- ===== src/Transport/Reaching.antt =====
-- The receive loop on a node whose subscriptions are those of a run of calls.
use leos_sdk.Prelude.{ℕ, ◌≤◌, ◌<◌, ◌^◌, Option, none, some, List, [], length, ◌≡◌, sym, ap, ◌∙◌}
use leos_sdk.Cyphal.Node.{Kind, Canard, Handler}
use leos_sdk.Cyphal.Task.{max_subscriptions}
use leos_sdk.Cyphal.Laws.{View, Lawful}
use leos_sdk.Cyphal.Calls.{Call, no_book, AllUse, run}
use leos_sdk.Cyphal.System.{started, dispatch-run}
use leos_sdk.Transport.Behaviour.{Behaves}
use leos_sdk.Transport.Draining.{rx_process-Drained}
use leos_sdk.Transport.Delivery.{calls_of, Observes, rx_process-SoundEnd, Drained-log}
use leos_sdk.Transport.Receive.{Receiver, rx_process}

module _ {N W : Type 0} (canard : Canard N) (view : View N) (kind_for : ℕ → Kind)
    (law : Lawful canard view) (io : Receiver W) (pending owned : W → ℕ) (ports : W → List ℕ)
    (log : W → List (ℕ × ℕ)) where
  -- With lawful libcanard and heap, each port used with one kind, on a node after any calls of
  -- leos_cyphal_subscribe and leos_cyphal_unsubscribe for at most 25 different ports, with callbacks
  -- that do not call these; and with fuel for each frame that can come, of which there are fewer
  -- than 2 ^ 32: the receive loop ends, and the callbacks that it called are, in the order of the
  -- transfers that libcanard accepted, those of the last subscription of the transfer's port that
  -- answered OK and was not cancelled, and none for a port without one.
  pub rx_process-run :
      (used : List ℕ) (calls : List Call) (start : N) (handlers : ℕ → Handler) (fuel : ℕ) (w : W)
      → length used ≤ max_subscriptions
      → AllUse used calls
      → ((q : ℕ) → view.registered start (kind_for q) q ≡ none)
      → let (book, s) =
          run canard kind_for calls (no_book, started canard view kind_for law start handlers) in
        Behaves io pending owned
        → Observes io (λ p. view.registered s.world (kind_for p) p) ports log
        → io.handlers w ≡ s.handlers
        → ports w ≡ []
        → log w ≡ []
        → pending w < fuel
        → pending w < 2 ^ 32
        → (n : ℕ) × (v : W) × (rx_process io fuel w ≡ some (n, v))
          × (log v ≡ calls_of book (ports v))
  rx_process-run used calls start handlers fuel w few uses fresh behaves observes same no_ports
        empty enough small =
      let (book, s) =
        run canard kind_for calls (no_book, started canard view kind_for law start handlers) in
      let registered : ℕ → Option ℕ = λ p. view.registered s.world (kind_for p) p in
      let reaches = λ (p : ℕ).
        dispatch-run canard view kind_for law used calls start handlers p few uses fresh in
      Drained-log io registered ports log observes s.handlers book reaches pending owned w
        (rx_process io fuel w) (rx_process-Drained io pending owned behaves fuel w enough small)
        (rx_process-SoundEnd io registered ports log observes s.handlers book reaches fuel w
          (same, empty ∙ ap (calls_of book) (sym no_ports)))
