-- ===== src/Cyphal/Dispatch.antt =====
-- A transfer reaches the callback of its port's subscription.
use leos_sdk.Prelude.{ℕ, true, if_cases, ◌==◌, ◌≡◌, refl, ap, ◌∙◌, arith, Option, some}
use leos_sdk.Prelude.Int.{ℤ, pos}
use leos_sdk.Cyphal.Node.{
  Kind, Canard, Handler, State, with_handler, call_of, dispatch, subscribe_node,
}
use leos_sdk.Cyphal.Laws.{View, Lawful}
use leos_sdk.Cyphal.Tracking.{set_port, Represents}
use leos_sdk.Cyphal.Subscribing.{
  Subscription, failed, tracked, untracked, handler_of, subscribe_node-Subscription,
}

pub with_handler-here :
    (handlers : ℕ → Handler) (a : ℕ) (h : Handler) → with_handler handlers a h a ≡ h
unfolding with_handler
with_handler-here handlers a h =
    if_cases (λ x. x ≡ h) (a == a) (λ _. refl) (λ e. absurd (ground arith))

set_port-here : (m : ℕ → Option ℕ) (p : ℕ) (o : Option ℕ) → set_port m p o p ≡ o
set_port-here m p o = if_cases (λ x. x ≡ o) (p == p) (λ _. refl) (λ e. absurd (ground arith))

pub dispatch-handler :
    (handlers : ℕ → Handler) (a callback user_ref : ℕ)
    → handlers a ≡ handler_of callback user_ref a
    → dispatch handlers true (some a) ≡ some (callback, user_ref)
unfolding dispatch call_of
dispatch-handler handlers a callback user_ref e =
    ap (λ (x : Handler). call_of handlers x.user_reference) e
    ∙ ap (λ (x : Handler). some (x.callback, x.user_ref)) e

module _ {W : Type 0} (canard : Canard W) (view : View W) (kind_for : ℕ → Kind)
    (law : Lawful canard view) where
  Subscription-dispatch :
      (m : ℕ → Option ℕ) (p callback user_ref : ℕ) (s : State W) (r : ℤ) (s' : State W)
      → Subscription canard view kind_for m p (handler_of callback user_ref) s r s'
      → r ≡ pos 0
      → (a : ℕ) × (view.registered s'.world (kind_for p) p ≡ some a)
        × (dispatch s'.handlers true (some a) ≡ some (callback, user_ref))
  Subscription-dispatch m p callback user_ref s r s' (failed et rep) e = absurd (cc e)
  Subscription-dispatch m p callback user_ref s r s' (tracked {a = a} new rep eh) e = (
    a,
    rep.registry p ∙ set_port-here m p (some a),
    dispatch-handler s'.handlers a callback user_ref
        (ap (λ f. f a) eh ∙ with_handler-here s.handlers a (handler_of callback user_ref a)),
  )
  Subscription-dispatch m p callback user_ref s r s' (untracked f pending free) e = absurd (cc e)

  -- With lawful libcanard and heap, each port used with one kind, and a table and a registry that
  -- hold the same map: after a call of leos_cyphal_subscribe that ends OK, a transfer that
  -- libcanard accepts for that kind and port, so with the object registered there, is dispatched
  -- to the callback of the call with its user reference.
  pub dispatch-subscribe_node :
      (m : ℕ → Option ℕ) (p extent callback user_ref : ℕ) (s : State W)
      → Represents canard view kind_for m s.world s.subscriptions
      → (subscribe_node canard (kind_for p) p extent callback user_ref s).0 ≡ pos 0
      → let s' = (subscribe_node canard (kind_for p) p extent callback user_ref s).1 in
        (a : ℕ) × (view.registered s'.world (kind_for p) p ≡ some a)
        × (dispatch s'.handlers true (some a) ≡ some (callback, user_ref))
  dispatch-subscribe_node m p extent callback user_ref s rep e =
      Subscription-dispatch m p callback user_ref s _ _
        (subscribe_node-Subscription canard view kind_for law m p extent callback user_ref s rep) e
