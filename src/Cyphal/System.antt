-- ===== src/Cyphal/System.antt =====
-- The subscriptions of a node from its start, over any calls.
use leos_sdk.Prelude.{
  ℕ, zero, suc, ◌≤◌, true, none, List, [], ◌∷◌, length, replicate, contains, ◌≡◌, refl,
}
use leos_sdk.Cyphal.Node.{Kind, Canard, Handler, State, dispatch}
use leos_sdk.Cyphal.Task.{max_subscriptions}
use leos_sdk.Cyphal.Slots.{find, AllObjects, OnePerPort}
use leos_sdk.Cyphal.Laws.{View, Lawful}
use leos_sdk.Cyphal.Subscribing.{subscribe_node-Subscription}
use leos_sdk.Cyphal.Unsubscribing.{unsubscribe_node-Cancellation}
use leos_sdk.Cyphal.Places.{subscribe_node-KeepsLive, unsubscribe_node-SamePlaces}
use leos_sdk.Cyphal.Calls.{
  Call, subscribes, unsubscribes, port_of_call, Book, no_book, told, AllUse, do_call, run,
}
use leos_sdk.Cyphal.Serving.{Serves, Serves-dispatch, Subscription-Serves, Cancellation-Serves}

find-replicate : (f : ℕ → ℕ) (p n : ℕ) → find f p (replicate n none) ≡ none
unfolding find
find-replicate f p zero = refl
find-replicate f p (suc n) = find-replicate f p n

OnePerPort-replicate : (f : ℕ → ℕ) (n : ℕ) → OnePerPort f (replicate n none)
OnePerPort-replicate f zero = refl
OnePerPort-replicate f (suc n) = OnePerPort-replicate f n

AllObjects-replicate : (P : ℕ → Type 0) (n : ℕ) → AllObjects P (replicate n none)
AllObjects-replicate P zero = refl
AllObjects-replicate P (suc n) = AllObjects-replicate P n

module _ {W : Type 0} (canard : Canard W) (view : View W) (kind_for : ℕ → Kind)
    (law : Lawful canard view) where
  -- A node whose table is as leos_cyphal_init leaves it.
  abbrev pub started : W → (ℕ → Handler) → State W
  started w handlers = record {
    world = w;
    handlers = handlers;
    subscriptions = replicate max_subscriptions none;
  }

  module _ (ports : List ℕ) where
    started-Serves :
        (w : W) (handlers : ℕ → Handler)
        → length ports ≤ max_subscriptions
        → ((p : ℕ) → view.registered w (kind_for p) p ≡ none)
        → Serves canard view kind_for ports no_book (started w handlers)
    started-Serves w handlers few fresh = record {
      objects = λ p. none;
      represents = record {
        table = λ p. find-replicate (canard.port_of w) p max_subscriptions;
        registry = fresh;
        one = OnePerPort-replicate (canard.port_of w) max_subscriptions;
        live = AllObjects-replicate (view.IsLive w) max_subscriptions;
      };
      handled = λ p. refl;
      used = λ p a e. absurd (cc e);
      room = few;
    }

    do_call-Serves :
        (call : Call) (book : Book) (s : State W)
        → contains (port_of_call call) ports ≡ true
        → Serves canard view kind_for ports book s
        → let (r, s') = do_call canard kind_for call s in
          Serves canard view kind_for ports (told call r book) s'
    unfolding do_call
    do_call-Serves (subscribes p extent c u) book s listed serves =
        Subscription-Serves canard view kind_for ports book s serves p extent c u _ _ listed
          (subscribe_node-KeepsLive canard view law (kind_for p) p extent c u s)
          (subscribe_node-Subscription canard view kind_for law serves.objects p extent c u s
            serves.represents)
    do_call-Serves (unsubscribes p) book s listed serves =
        Cancellation-Serves canard view kind_for ports book s serves p _ _ listed
          (unsubscribe_node-SamePlaces canard (kind_for p) p s)
          (unsubscribe_node-Cancellation canard view kind_for law serves.objects p s
            serves.represents)

    run-Serves :
        (calls : List Call) (book : Book) (s : State W)
        → AllUse ports calls
        → Serves canard view kind_for ports book s
        → let (book', s') = run canard kind_for calls (book, s) in
          Serves canard view kind_for ports book' s'
    unfolding run
    run-Serves [] book s listed serves = serves
    run-Serves (call ∷ calls) book s (listed, uses) serves =
        let (r, s') = do_call canard kind_for call s in
        run-Serves calls (told call r book) s' uses (do_call-Serves call book s listed serves)

    -- With lawful libcanard and heap, each port used with one kind, from a node as
    -- leos_cyphal_init leaves its table, with nothing registered: after any calls of
    -- leos_cyphal_subscribe and leos_cyphal_unsubscribe, failed ones included, for at most 25
    -- different ports, a transfer of a port, given with the object registered there, is dispatched
    -- to the callback and reference of the last subscription of the port that answered OK and was
    -- not cancelled by a call that answered OK; and to none if there is no such subscription.
    pub dispatch-run :
        (calls : List Call) (w : W) (handlers : ℕ → Handler) (p : ℕ)
        → length ports ≤ max_subscriptions
        → AllUse ports calls
        → ((q : ℕ) → view.registered w (kind_for q) q ≡ none)
        → let (book, s) = run canard kind_for calls (no_book, started w handlers) in
          dispatch s.handlers true (view.registered s.world (kind_for p) p) ≡ book p
    dispatch-run calls w handlers p few uses fresh =
        Serves-dispatch canard view kind_for ports _ _
          (run-Serves calls no_book (started w handlers) uses (started-Serves w handlers few fresh))
          p
