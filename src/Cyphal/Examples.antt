-- ===== src/Cyphal/Examples.antt =====
-- The theorems at the simulated libcanard, and those about the heartbeat at a clock.
use leos_sdk.Prelude.{
  ℕ, ◌+◌, ◌*◌, ◌/◌, true, false, ◌≡◌, if◌then◌else◌, ◌==◌, refl, arith, Option, none, some, List,
  [], ◌∷◌, contains,
}
use leos_sdk.Prelude.Int.{pos}
use leos_sdk.Cyphal.Table.{fill, behind, clear_port, keep_entry}
use leos_sdk.Cyphal.Task.{
  Services, init, canard_memory_init, push, push_heartbeat, publish_heartbeat, beat, task,
}
use leos_sdk.Cyphal.Heartbeats.{Log, KeepsTime, IsOnTime, tasks, receives, run-IsOnTime}
use leos_sdk.Cyphal.Heartbeats
use leos_sdk.Cyphal.Node.{
  Kind, message, request, State, track_in, track, subscribed, subscribe_at, subscribe_node,
  unsubscribe_node, dispatch, release, release_found, free_entry, unsubscribed, forget_found,
  with_handler,
}
use leos_sdk.Cyphal.Slots.{find}
use leos_sdk.Cyphal.Tracking.{Represents, set_port}
use leos_sdk.Cyphal.Subscribing.{Subscription, handler_of, subscribe_node-Subscription}
use leos_sdk.Cyphal.Unsubscribing.{
  Cancellation, unsubscribe_node-Cancellation, unsubscribe_node_other_kind,
}
use leos_sdk.Cyphal.Calls.{Call, subscribes, unsubscribes, Book, no_book, told, do_call, run}
use leos_sdk.Cyphal.System.{started, dispatch-run}
use leos_sdk.Cyphal.Simulation.{
  Sim, no_objects, no_handlers, simulation, sim_view, simulation-Lawful,
}

-- Three places in the table keep the examples small.
abbrev fresh_state : State Sim
fresh_state = record {
  world = no_objects;
  handlers = no_handlers;
  subscriptions = none ∷ none ∷ none ∷ [];
}

abbrev messages : ℕ → Kind
messages p = message

abbrev no_subscription : ℕ → Option ℕ
no_subscription p = none

fresh-Represents :
    Represents simulation sim_view messages no_subscription fresh_state.world
      fresh_state.subscriptions
unfolding find
fresh-Represents = record { table = λ p. refl; registry = λ p. refl; one = refl; live = refl }

subscribe_node-Subscription_example :
    let out = subscribe_node simulation message 7 64 5 9 fresh_state in
    Subscription simulation sim_view messages no_subscription 7
      (handler_of 5 9)
      fresh_state
      out.0
      out.1
subscribe_node-Subscription_example =
    subscribe_node-Subscription simulation sim_view messages simulation-Lawful no_subscription 7 64
      5 9 fresh_state fresh-Represents

-- One message subscription at port 7, the object 1.
abbrev one_subscription : State Sim
one_subscription = record {
  world = record {
    next = 2;
    freed = λ a. false;
    ports = λ a. 7;
    registry = λ k p. elim k [ message ↦ if p == 7 then some 1 else none | _ ↦ none ];
  };
  handlers = λ a. record { user_reference = some 1; callback = 5; user_ref = 9 };
  subscriptions = some 1 ∷ none ∷ none ∷ [];
}

one-Represents :
    Represents simulation sim_view messages
      (set_port no_subscription 7 (some 1))
      one_subscription.world
      one_subscription.subscriptions
unfolding find
one-Represents = record {
  table = λ p. ground arith;
  registry = λ p. refl;
  one = (refl, refl);
  live = ((omega arith, refl), refl);
}

unsubscribe_node-Cancellation_example :
    let out = unsubscribe_node simulation message 7 one_subscription in
    Cancellation simulation sim_view messages (set_port no_subscription 7 (some 1)) 7 out.0 out.1
unsubscribe_node-Cancellation_example =
    unsubscribe_node-Cancellation simulation sim_view messages simulation-Lawful
      (set_port no_subscription 7 (some 1)) 7 one_subscription one-Represents

-- The port 7 subscribed for messages, object 1, and then for requests, object 2.
two_kinds : State Sim
two_kinds =
    (subscribe_node simulation request 7 64 6 9
      (subscribe_node simulation message 7 64 5 9 fresh_state).1).1

unsubscribe_node_other_kind_example :
    let s' = (unsubscribe_node simulation request 7 two_kinds).1 in
    (sim_view.registered s'.world message 7 ≡ some 1) × ¬ sim_view.IsLive s'.world 1
unfolding two_kinds subscribe_node subscribe_at subscribed track track_in fill behind find
unsubscribe_node_other_kind_example =
    unsubscribe_node_other_kind simulation sim_view messages simulation-Lawful 7 1 message request 0
      two_kinds ((omega arith, refl), ((omega arith, refl), refl)) refl refl (λ e. cc e) refl

-- The time in microseconds, and the heartbeats. To poll takes six tenths of a second.
record Watch : Type 0 where
  time : ℕ
  beats : Log

abbrev watch : Services Watch
watch = record {
  heap_init = λ size w. (true, w);
  canard_init = λ id w. w;
  tx_init = λ capacity w. w;
  tx_poll = λ t w. (pos 0, record w { time = w.time + 600000 });
  tx_push = λ t m b w. (
    pos 1,
    record w { beats = if m.port_id == 7509 then (w.time, m.transfer_id) ∷ w.beats else w.beats },
  );
  rx_process = λ w. w;
  get_absolute_time = λ w. (w.time, w);
  make_timeout_time_ms = λ ms w. (w.time + 1000 * ms, w);
  to_ms_since_boot = λ t. t / 1000;
  serialize = λ h. some (h.uptime ∷ []);
  heartbeat_port_id = 7509;
  priority_nominal = 4;
  health_nominal = 0;
  mode_initialization = 1;
}

watch-KeepsTime : KeepsTime watch (λ w. w.time) (λ w. w.beats)
watch-KeepsTime = record {
  clock = λ w. omega arith;
  clock_now = λ w. omega arith;
  clock_log = λ w. refl;
  timeout = λ ms w. omega arith;
  timeout_now = λ ms w. omega arith;
  timeout_log = λ ms w. refl;
  poll_now = λ t w. omega arith;
  poll_log = λ t w. refl;
  rx_log = λ w. refl;
  push_now = λ t m b w. omega arith;
  push_log = λ t m b w. refl;
}

abbrev morning : Watch
morning = record { time = 5; beats = [] }

four_tasks :
    (Heartbeats.run watch
      (tasks ∷ tasks ∷ tasks ∷ tasks ∷ [])
      (init watch 42 morning).1).world.beats
    ≡ (1800005, 1) ∷ (600005, 0) ∷ []
unfolding Heartbeats.run task beat publish_heartbeat push_heartbeat push init canard_memory_init
four_tasks = refl

run-IsOnTime_example :
    IsOnTime
      (λ w. w.beats)
      (Heartbeats.run watch (tasks ∷ receives ∷ tasks ∷ tasks ∷ []) (init watch 42 morning).1)
unfolding init canard_memory_init
run-IsOnTime_example =
    run-IsOnTime watch (λ w. w.time) (λ w. w.beats) watch-KeepsTime
      (tasks ∷ receives ∷ tasks ∷ tasks ∷ []) (init watch 42 morning).1 tt tt

-- The port 7 is subscribed twice and 9 once, which is then cancelled.
abbrev four_calls : List Call
four_calls = subscribes 7 64 5 9 ∷ subscribes 9 64 6 1 ∷ subscribes 7 64 8 2 ∷ unsubscribes 9 ∷ []

abbrev after_four_calls : Book × State Sim
after_four_calls = run simulation messages four_calls (
  no_book,
  started simulation sim_view messages simulation-Lawful fresh_state.world fresh_state.handlers,
)

dispatch-run_example :
    let (book, s) = after_four_calls in
    dispatch s.handlers true (sim_view.registered s.world message 7) ≡ book 7
unfolding contains
dispatch-run_example =
    dispatch-run simulation sim_view messages simulation-Lawful (7 ∷ 9 ∷ []) four_calls
      fresh_state.world fresh_state.handlers 7 (omega arith) (refl, (refl, (refl, (refl, refl))))
      (λ q. refl)

four_calls_book : (after_four_calls.0 7 ≡ some (8, 2)) × (after_four_calls.0 9 ≡ none)
unfolding run do_call told subscribe_node subscribe_at subscribed track track_in fill behind release
    release_found free_entry clear_port keep_entry unsubscribe_node unsubscribed forget_found
    with_handler
four_calls_book = (refl, refl)
