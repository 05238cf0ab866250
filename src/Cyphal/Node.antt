-- ===== src/Cyphal/Node.antt =====
-- The subscriptions of the Cyphal node (src/leos_cyphal/node/cyphal.c and
-- src/leos_cyphal/transport/transport.c).
use leos_sdk.Prelude.{ℕ, zero, suc, Bool, true, false, if◌then◌else◌, ◌==◌, Option, none, some}
use leos_sdk.Prelude.Int.{ℤ, pos, negsuc}
use leos_sdk.Cyphal.Table.{Table, clear_port, fill}

-- CanardTransferKind, of libcanard.
pub data Kind : Type 0 where
  message : Kind
  response : Kind
  request : Kind

-- libcanard and the heap behind it, over a world `W` that holds the CanardInstance and the heap.
-- The addresses are those of objects of type leos_cyphal_subscription_t, whose first member is
-- the CanardRxSubscription that libcanard is given.
pub record Canard (W : Type 0) : Type 0 where
  pub allocate : W → Option ℕ × W
  pub deallocate : ℕ → W → W
  -- canardRxSubscribe: kind, port, extent and the object, with the default timeout.
  pub rx_subscribe : Kind → ℕ → ℕ → ℕ → W → ℤ × W
  -- canardRxUnsubscribe.
  pub rx_unsubscribe : Kind → ℕ → W → ℤ × W
  -- The field `sub.port_id` of the object at an address.
  pub port_of : W → ℕ → ℕ

-- The other fields of an object: `sub.user_reference` (an object's address), `callback` and
-- `user_ref`, the last two as numbers that name them.
pub record Handler : Type 0 where
  pub user_reference : Option ℕ
  pub callback : ℕ
  pub user_ref : ℕ

pub record State (W : Type 0) : Type 0 where
  pub world : W
  pub handlers : ℕ → Handler
  pub subscriptions : Table

abbrev pub invalid_argument : ℤ
invalid_argument = negsuc 0

abbrev pub out_of_memory : ℤ
out_of_memory = negsuc 1

abbrev pub too_many_subscriptions : ℤ
too_many_subscriptions = negsuc 9

abbrev pub error_unknown : ℤ
error_unknown = negsuc 99

unfoldable pub with_handler : (ℕ → Handler) → ℕ → Handler → ℕ → Handler
with_handler handlers a h b = if b == a then h else handlers b

-- The second loop of leos_cyphal_subscribe.
unfoldable pub track_in : {W : Type 0} → Option Table → State W → ℤ × State W
track_in none s = (too_many_subscriptions, s)
track_in (some t) s = (pos 0, record s { subscriptions = t })

unfoldable pub track : {W : Type 0} → ℕ → State W → ℤ × State W
unfolding track_in
track a s = track_in (fill a s.subscriptions) s

module _ {W : Type 0} (canard : Canard W) where
  -- The entry that the search found is freed, and the table has NULL in its place.
  unfoldable pub free_entry : ℕ × Table → State W → State W
  free_entry (a, t) s = record s { world = canard.deallocate a s.world; subscriptions = t }

  unfoldable pub release_found : Option (ℕ × Table) → State W → State W
  unfolding free_entry
  release_found none s = s
  release_found (some found) s = free_entry found s

  -- The first loop of leos_cyphal_subscribe.
  unfoldable pub release : ℕ → State W → State W
  unfolding release_found
  release port s = release_found (clear_port (canard.port_of s.world) port s.subscriptions) s

  -- What follows canardRxSubscribe, by its result.
  unfoldable pub subscribed : ℕ → ℕ → ℤ → State W → ℤ × State W
  unfolding release track
  subscribed port a (negsuc n) s = (negsuc n, s)
  subscribed port a (pos zero) s = track a (release port s)
  subscribed port a (pos (suc n)) s = track a s

  -- What follows the allocation.
  unfoldable pub subscribe_at : Kind → ℕ → ℕ → ℕ → ℕ → State W → Option ℕ × W → ℤ × State W
  unfolding subscribed with_handler
  subscribe_at kind port extent callback user_ref s (none, w) =
      (out_of_memory, record s { world = w })
  subscribe_at kind port extent callback user_ref s (some a, w) =
      let h : Handler = record {
        user_reference = some a;
        callback = callback;
        user_ref = user_ref;
      } in
      let (result, w') = canard.rx_subscribe kind port extent a w in
      subscribed port a result (record {
        world = w';
        handlers = with_handler s.handlers a h;
        subscriptions = s.subscriptions;
      })

  unfoldable pub subscribe_node : Kind → ℕ → ℕ → ℕ → ℕ → State W → ℤ × State W
  unfolding subscribe_at
  subscribe_node kind port extent callback user_ref s =
      subscribe_at kind port extent callback user_ref s (canard.allocate s.world)

  unfoldable pub subscribe : Option (State W) → Kind → ℕ → ℕ → ℕ → ℕ → ℤ × Option (State W)
  unfolding subscribe_node
  subscribe none kind port extent callback user_ref = (invalid_argument, none)
  subscribe (some s) kind port extent callback user_ref =
      let (r, s') = subscribe_node kind port extent callback user_ref s in (r, some s')

  -- The loop of leos_cyphal_unsubscribe.
  unfoldable pub forget_found : Option (ℕ × Table) → State W → ℤ × State W
  unfolding free_entry
  forget_found none s = (error_unknown, s)
  forget_found (some found) s = (pos 0, free_entry found s)

  -- What follows canardRxUnsubscribe, by its result.
  unfoldable pub unsubscribed : ℕ → ℤ → State W → ℤ × State W
  unfolding forget_found
  unsubscribed port (negsuc n) s = (negsuc n, s)
  unsubscribed port (pos zero) s = (pos 0, s)
  unsubscribed port (pos (suc n)) s =
      forget_found (clear_port (canard.port_of s.world) port s.subscriptions) s

  unfoldable pub unsubscribe_node : Kind → ℕ → State W → ℤ × State W
  unfolding unsubscribed
  unsubscribe_node kind port s =
      let (result, w) = canard.rx_unsubscribe kind port s.world in
      unsubscribed port result (record s { world = w })

  unfoldable pub unsubscribe : Option (State W) → Kind → ℕ → ℤ × Option (State W)
  unfolding unsubscribe_node
  unsubscribe none kind port = (invalid_argument, none)
  unsubscribe (some s) kind port = let (r, s') = unsubscribe_node kind port s in (r, some s')

-- leos_cyphal_subscription_dispatch: the callback that is called, with its user reference, if
-- neither the transfer nor the subscription nor its user reference is NULL.
unfoldable pub call_of : (ℕ → Handler) → Option ℕ → Option (ℕ × ℕ)
call_of handlers none = none
call_of handlers (some a) = some ((handlers a).callback, (handlers a).user_ref)

unfoldable pub dispatch : (ℕ → Handler) → Bool → Option ℕ → Option (ℕ × ℕ)
unfolding call_of
dispatch handlers false subscription = none
dispatch handlers true none = none
dispatch handlers true (some a) = call_of handlers (handlers a).user_reference
