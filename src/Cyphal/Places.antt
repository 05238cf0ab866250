-- ===== src/Cyphal/Places.antt =====
-- What subscribe and unsubscribe leave alone: the places of the table, and the handlers of the
-- objects that are allocated.
use leos_sdk.Prelude.{
  ℕ, zero, suc, if_cases, ◌==◌, ==_iff, Option, none, some, length, ◌≡◌, refl, ap, ◌∙◌,
}
use mathlib.Core.Path.{subst}
use leos_sdk.Prelude.Int.{ℤ, pos, negsuc}
use leos_sdk.Cyphal.Table.{Table, clear_port, fill}
use leos_sdk.Cyphal.Node.{
  Kind, Canard, Handler, State, with_handler, free_entry, release_found, release, track_in, track,
  subscribed, subscribe_at, subscribe_node, forget_found, unsubscribed, unsubscribe_node,
}
use leos_sdk.Cyphal.Laws.{View, Allocates, Lawful}
use leos_sdk.Cyphal.Capacity.{Sized, SizedAfter, fill-Sized, clear_port-SizedAfter}

-- The table has as many places, and the handlers are the same.
pub record SamePlaces {W : Type 0} (s s' : State W) : Type 0 where
  pub size : length s'.subscriptions ≡ length s.subscriptions
  pub handlers : s'.handlers ≡ s.handlers

module _ {W : Type 0} where
  SamePlaces-trans : (s s' s'' : State W) → SamePlaces s s' → SamePlaces s' s'' → SamePlaces s s''
  SamePlaces-trans s s' s'' p q = record {
    size = q.size ∙ p.size;
    handlers = q.handlers ∙ p.handlers;
  }

  track_in-SamePlaces :
      (o : Option Table) (s : State W)
      → Sized (length s.subscriptions) o
      → SamePlaces s (track_in o s).1
  unfolding track_in
  track_in-SamePlaces none s e = record { size = refl; handlers = refl }
  track_in-SamePlaces (some t) s e = record { size = e; handlers = refl }

  track-SamePlaces : (a : ℕ) (s : State W) → SamePlaces s (track a s).1
  unfolding track
  track-SamePlaces a s =
      track_in-SamePlaces (fill a s.subscriptions) s (fill-Sized a s.subscriptions)

module _ {W : Type 0} (canard : Canard W) where
  release_found-SamePlaces :
      (o : Option (ℕ × Table)) (s : State W)
      → SizedAfter (length s.subscriptions) o
      → SamePlaces s (release_found canard o s)
  unfolding release_found free_entry
  release_found-SamePlaces none s e = record { size = refl; handlers = refl }
  release_found-SamePlaces (some (a, t)) s e = record { size = e; handlers = refl }

  subscribed-SamePlaces :
      (port a : ℕ) (result : ℤ) (s : State W) → SamePlaces s (subscribed canard port a result s).1
  unfolding subscribed release
  subscribed-SamePlaces port a (negsuc n) s = record { size = refl; handlers = refl }
  subscribed-SamePlaces port a (pos zero) s =
      let o = clear_port (canard.port_of s.world) port s.subscriptions in
      SamePlaces-trans s (release_found canard o s) _
        (release_found-SamePlaces o s (clear_port-SizedAfter _ port s.subscriptions))
        (track-SamePlaces a (release_found canard o s))
  subscribed-SamePlaces port a (pos (suc n)) s = track-SamePlaces a s

  forget_found-SamePlaces :
      (o : Option (ℕ × Table)) (s : State W)
      → SizedAfter (length s.subscriptions) o
      → SamePlaces s (forget_found canard o s).1
  unfolding forget_found free_entry
  forget_found-SamePlaces none s e = record { size = refl; handlers = refl }
  forget_found-SamePlaces (some (a, t)) s e = record { size = e; handlers = refl }

  unsubscribed-SamePlaces :
      (port : ℕ) (result : ℤ) (s : State W) → SamePlaces s (unsubscribed canard port result s).1
  unfolding unsubscribed
  unsubscribed-SamePlaces port (negsuc n) s = record { size = refl; handlers = refl }
  unsubscribed-SamePlaces port (pos zero) s = record { size = refl; handlers = refl }
  unsubscribed-SamePlaces port (pos (suc n)) s =
      forget_found-SamePlaces (clear_port (canard.port_of s.world) port s.subscriptions) s
        (clear_port-SizedAfter _ port s.subscriptions)

  pub unsubscribe_node-SamePlaces :
      (kind : Kind) (port : ℕ) (s : State W) → SamePlaces s (unsubscribe_node canard kind port s).1
  unfolding unsubscribe_node
  unsubscribe_node-SamePlaces kind port s =
      let (result, w) = canard.rx_unsubscribe kind port s.world in
      let rest = unsubscribed-SamePlaces port result (record s { world = w }) in
      record { size = rest.size; handlers = rest.handlers }

  module _ (view : View W) where
    -- The table has as many places, and the handler of an allocated object is the same.
    pub record KeepsLive (s s' : State W) : Type 0 where
      pub size : length s'.subscriptions ≡ length s.subscriptions
      pub handlers : (b : ℕ) → view.IsLive s.world b → s'.handlers b ≡ s.handlers b

    subscribe_at-KeepsLive :
        (kind : Kind) (port extent callback user_ref : ℕ) (s : State W) (o : Option ℕ) (w : W)
        → Allocates canard view s.world o w
        → KeepsLive s (subscribe_at canard kind port extent callback user_ref s (o, w)).1
    unfolding subscribe_at with_handler
    subscribe_at-KeepsLive kind port extent callback user_ref s none w alloc = record {
      size = refl;
      handlers = λ b l. refl;
    }
    subscribe_at-KeepsLive kind port extent callback user_ref s (some a) w alloc =
        let h : Handler = record {
          user_reference = some a;
          callback = callback;
          user_ref = user_ref;
        } in
        let (result, w') = canard.rx_subscribe kind port extent a w in
        let rest = subscribed-SamePlaces port a result (record {
          world = w';
          handlers = with_handler s.handlers a h;
          subscriptions = s.subscriptions;
        }) in
        record {
          size = rest.size;
          handlers = λ b l.
              ap (λ f. f b) rest.handlers
              ∙ if_cases (λ (x : Handler). x ≡ s.handlers b) (b == a)
                  (λ same. absurd (
                    alloc.fresh a refl
                      (subst (λ c. view.IsLive s.world c) ((==_iff b a).0 same) l)))
                  (λ _. refl);
        }

    pub subscribe_node-KeepsLive :
        (law : Lawful canard view) (kind : Kind) (port extent callback user_ref : ℕ) (s : State W)
        → KeepsLive s (subscribe_node canard kind port extent callback user_ref s).1
    unfolding subscribe_node
    subscribe_node-KeepsLive law kind port extent callback user_ref s =
        subscribe_at-KeepsLive kind port extent callback user_ref s _ _ (law.allocates s.world)
