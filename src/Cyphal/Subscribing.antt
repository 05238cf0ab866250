-- ===== src/Cyphal/Subscribing.antt =====
-- leos_cyphal_subscribe updates the map of subscriptions.
use leos_sdk.Prelude.{ℕ, zero, suc, ◌≡◌, ◌≢◌, refl, sym, ap, ◌∙◌, Option, none, some}
use mathlib.Core.Path.{subst}
use leos_sdk.Prelude.Int.{ℤ, pos, negsuc}
use leos_sdk.Cyphal.Table.{Table}
use leos_sdk.Cyphal.Node.{
  Kind, Canard, Handler, State, too_many_subscriptions, with_handler, free_entry, release_found,
  release, track_in, track, subscribed, subscribe_at, subscribe_node,
}
use leos_sdk.Cyphal.Slots.{find, find-AllObjects, AllObjects, AllObjects-map}
use leos_sdk.Cyphal.Clearing.{
  Clearing, absent, cleared, AllAfter, clear_port-Clearing, clear_port-AllAfter,
}
use leos_sdk.Cyphal.Filling.{Filling, full, filled, fill-Filling, IsFull}
use leos_sdk.Cyphal.Laws.{View, Allocates, Subscribes, refused, replaced, created, Lawful}
use leos_sdk.Cyphal.Tracking.{
  set_port, Represents, Represents-Preserves, Pending, Pending-Registers, Pending-Frees,
  Represents-IsFilled,
}

-- What a call for a port left, from a state whose subscriptions are the map `m`.
module _ {W : Type 0} (canard : Canard W) (view : View W) (kind_for : ℕ → Kind) where
  pub data Subscription (m : ℕ → Option ℕ) (p : ℕ) (h : ℕ → Handler) (s : State W)
      : ℤ → State W → Type 0 where
    -- An error, and the subscriptions are what they were.
    failed :
        {n : ℕ} {s' : State W}
        → s'.subscriptions ≡ s.subscriptions
        → Represents canard view kind_for m s'.world s'.subscriptions
        → Subscription m p h s (negsuc n) s'
    -- A new object stands for the port, and holds the callback and its reference.
    tracked :
        {a : ℕ} {s' : State W}
        → ¬ view.IsLive s.world a
        → Represents canard view kind_for (set_port m p (some a)) s'.world s'.subscriptions
        → s'.handlers ≡ with_handler s.handlers a (h a)
        → Subscription m p h s (pos 0) s'
    -- The table has no room: the object is registered, and not in the table.
    untracked :
        {a : ℕ} {s' : State W}
        → IsFull s'.subscriptions
        → Pending canard view kind_for m p a s'.world s'.subscriptions
        → find (canard.port_of s'.world) p s'.subscriptions ≡ none
        → Subscription m p h s too_many_subscriptions s'

  -- What the loops find: the handlers are written, the object registered.
  module _ (law : Lawful canard view) (m : ℕ → Option ℕ) (p : ℕ) (h : ℕ → Handler) (s : State W)
      (a : ℕ) (new : ¬ view.IsLive s.world a) where
    track_in_lem :
        (s' : State W) (o : Option Table)
        → Filling (view.IsLive s'.world) (canard.port_of s'.world) a s'.subscriptions o
        → s'.handlers ≡ with_handler s.handlers a (h a)
        → Pending canard view kind_for m p a s'.world s'.subscriptions
        → find (canard.port_of s'.world) p s'.subscriptions ≡ none
        → Subscription m p h s (track_in o s').0 (track_in o s').1
    unfolding track_in
    track_in_lem s' none (full f) e pending free = untracked f pending free
    track_in_lem s' (some t) (filled c) e pending free =
        tracked new (Represents-IsFilled canard view kind_for m p a _ _ _ pending c) e

    track_lem :
        (s' : State W)
        → s'.handlers ≡ with_handler s.handlers a (h a)
        → Pending canard view kind_for m p a s'.world s'.subscriptions
        → find (canard.port_of s'.world) p s'.subscriptions ≡ none
        → Subscription m p h s (track a s').0 (track a s').1
    unfolding track
    track_lem s' e pending free =
        track_in_lem s' _
          (fill-Filling _ _ a s'.subscriptions pending.live pending.one
            (AllObjects-map s'.subscriptions (λ b x. x.0) pending.objects)
            (ap (λ q. find (canard.port_of s'.world) q s'.subscriptions) pending.port ∙ free))
          e pending free

    release_lem :
        (s' : State W) (o : Option (ℕ × Table))
        → Clearing (canard.port_of s'.world) p s'.subscriptions o
        → AllAfter (λ b. view.IsLive s'.world b × (b ≢ a)) o
        → AllObjects (view.IsLive s'.world) s'.subscriptions
        → s'.handlers ≡ with_handler s.handlers a (h a)
        → Pending canard view kind_for m p a s'.world s'.subscriptions
        → Subscription m p h s
            (track a (release_found canard o s')).0
            (track a (release_found canard o s')).1
    unfolding release_found free_entry
    release_lem s' none (absent free) all objects e pending = track_lem s' e pending free
    release_lem s' (some (old, t)) (cleared c) all objects e pending =
        let live = (find-AllObjects _ _ p s'.subscriptions old objects c.was).0 in
        let (pending', free) =
          Pending-Frees canard view kind_for m p a old _ _ _ t (law.frees old s'.world live) c all
            pending in
        track_lem (free_entry canard (old, t) s') e pending' free

    subscribed_lem :
        (s' : State W) (result : ℤ) (w : W)
        → Subscribes canard view (kind_for p) p a w result s'.world
        → s'.subscriptions ≡ s.subscriptions
        → s'.handlers ≡ with_handler s.handlers a (h a)
        → AllObjects (λ b. view.IsLive w b × (b ≢ a)) s'.subscriptions
        → Represents canard view kind_for m w s'.subscriptions
        → Subscription m p h s
            (subscribed canard p a result s').0
            (subscribed canard p a result s').1
    unfolding subscribed release
    subscribed_lem s' (negsuc n) w (refused kept same) et eh objects r =
        failed et
          (Represents-Preserves canard view kind_for (λ b. b ≡ a) m w _ _ kept same objects r)
    subscribed_lem s' (pos zero) w (replaced was reg) et eh objects r =
        let (pending, _) = Pending-Registers canard view kind_for m p a w _ _ reg objects r in
        release_lem s' _ (clear_port-Clearing _ p s'.subscriptions pending.one)
          (clear_port-AllAfter _ _ p s'.subscriptions pending.objects)
          (AllObjects-map s'.subscriptions (λ b x. x.0) pending.objects) eh pending
    subscribed_lem s' (pos (suc n)) w (created was reg) et eh objects r =
        let (pending, e) = Pending-Registers canard view kind_for m p a w _ _ reg objects r in
        track_lem s' eh pending (e ∙ sym (r.registry p) ∙ was)

-- The object that a call for a callback sets up at an address.
abbrev pub handler_of : ℕ → ℕ → ℕ → Handler
handler_of callback user_ref a = record {
  user_reference = some a;
  callback = callback;
  user_ref = user_ref;
}

module _ {W : Type 0} (canard : Canard W) (view : View W) (kind_for : ℕ → Kind)
    (law : Lawful canard view) where
  subscribe_at_lem :
      (m : ℕ → Option ℕ) (p extent callback user_ref : ℕ) (s : State W) (o : Option ℕ) (w : W)
      → Allocates canard view s.world o w
      → Represents canard view kind_for m s.world s.subscriptions
      → let out = subscribe_at canard (kind_for p) p extent callback user_ref s (o, w) in
        Subscription canard view kind_for m p (handler_of callback user_ref) s out.0 out.1
  unfolding subscribe_at
  subscribe_at_lem m p extent callback user_ref s none w alloc r = failed refl (
      Represents-Preserves canard view kind_for (λ b. ⊥) m s.world w _ alloc.kept alloc.registry
        (AllObjects-map s.subscriptions (λ b l. (l, λ x. x)) r.live) r)
  subscribe_at_lem m p extent callback user_ref s (some a) w alloc r =
      let new = alloc.fresh a refl in
      let objects =
        AllObjects-map {Q = λ b. view.IsLive w b × (b ≢ a)} s.subscriptions
          (λ b l. (alloc.kept.live b l (λ x. x), λ e. new (subst (λ c. view.IsLive s.world c) e l)))
          r.live in
      let r' =
        Represents-Preserves canard view kind_for (λ b. ⊥) m s.world w _ alloc.kept alloc.registry
          (AllObjects-map s.subscriptions (λ b l. (l, λ x. x)) r.live) r in
      subscribed_lem canard view kind_for law m p (handler_of callback user_ref) s a new _ _ w
        (law.subscribes (kind_for p) p extent a w (alloc.allocated a refl)) refl refl objects r'

  -- With lawful libcanard and heap, and each port used with one kind: from a state whose table and
  -- registry both hold a map of subscriptions, leos_cyphal_subscribe ends OK, and both then hold
  -- the map with a new object, of the given callback, at the port; or in an error, with both as
  -- they were; or, the table full, in TOO_MANY_SUBSCRIPTIONS, the object only in the registry.
  -- Whatever it frees is allocated, and so is every object of the table afterwards.
  pub subscribe_node-Subscription :
      (m : ℕ → Option ℕ) (p extent callback user_ref : ℕ) (s : State W)
      → Represents canard view kind_for m s.world s.subscriptions
      → let out = subscribe_node canard (kind_for p) p extent callback user_ref s in
        Subscription canard view kind_for m p (handler_of callback user_ref) s out.0 out.1
  unfolding subscribe_node
  subscribe_node-Subscription m p extent callback user_ref s r =
      subscribe_at_lem m p extent callback user_ref s _ _ (law.allocates s.world) r
