-- ===== src/Cyphal/Unsubscribing.antt =====
-- leos_cyphal_unsubscribe updates the map of subscriptions, and what it does across kinds.
use leos_sdk.Prelude.{ℕ, zero, suc, ◌≡◌, ◌≢◌, sym, ap, ◌∙◌, Option, none, some}
use mathlib.Core.Path.{subst}
use mathlib.Core.Option.{some-injective}
use leos_sdk.Prelude.Int.{ℤ, pos, negsuc}
use leos_sdk.Cyphal.Table.{Table}
use leos_sdk.Cyphal.Node.{
  Kind, Canard, State, free_entry, forget_found, unsubscribed, unsubscribe_node,
}
use leos_sdk.Cyphal.Slots.{find, find-AllObjects, AllObjects, AllObjects-map, find-ports}
use leos_sdk.Cyphal.Clearing.{
  Clearing, absent, cleared, AllAfter, clear_port-Clearing, clear_port-AllAfter, clear_port-find,
}
use leos_sdk.Cyphal.Laws.{View, Unsubscribes, rejected, unknown, removed, Lawful}
use leos_sdk.Cyphal.Tracking.{
  set_port, set_port-cases, Represents, Represents-Preserves, Leaving, Leaving-Preserves,
  Represents-Frees,
}

module _ {W : Type 0} (canard : Canard W) (view : View W) (kind_for : ℕ → Kind) where
  -- What a call for a port left, from a state whose subscriptions are the map `m`.
  pub data Cancellation (m : ℕ → Option ℕ) (p : ℕ) : ℤ → State W → Type 0 where
    -- An error of libcanard, and the subscriptions are what they were.
    kept :
        {n : ℕ} {s' : State W}
        → Represents canard view kind_for m s'.world s'.subscriptions
        → Cancellation m p (negsuc n) s'
    -- The port has no subscription now.
    cancelled :
        {s' : State W}
        → Represents canard view kind_for (set_port m p none) s'.world s'.subscriptions
        → ((a : ℕ) → m p ≡ some a → ¬ view.IsLive s'.world a)
        → Cancellation m p (pos 0) s'

  Represents-absent :
      (m : ℕ → Option ℕ) (p : ℕ) (w : W) (t : Table)
      → m p ≡ none
      → Represents canard view kind_for m w t
      → Represents canard view kind_for (set_port m p none) w t
  Represents-absent m p w t e r = record {
    table =
        set_port-cases m p none (λ q. find (canard.port_of w) q t) (r.table p ∙ e)
          (λ q ne. r.table q);
    registry =
        set_port-cases m p none (λ q. view.registered w (kind_for q) q) (r.registry p ∙ e)
          (λ q ne. r.registry q);
    one = r.one;
    live = r.live;
  }

  module _ (law : Lawful canard view) (m : ℕ → Option ℕ) (p : ℕ) where
    forget_found_lem :
        (s' : State W) (o : Option (ℕ × Table)) (old : ℕ)
        → Clearing (canard.port_of s'.world) p s'.subscriptions o
        → AllAfter (view.IsLive s'.world) o
        → m p ≡ some old
        → Leaving canard view kind_for m p s'.world s'.subscriptions
        → Cancellation m p (forget_found canard o s').0 (forget_found canard o s').1
    unfolding forget_found free_entry
    forget_found_lem s' none old (absent free) all e leaving =
        absurd (cc (sym free ∙ leaving.table p ∙ e))
    forget_found_lem s' (some (a, t)) old (cleared c) all e leaving =
        let live = (find-AllObjects _ _ p s'.subscriptions a leaving.live c.was).0 in
        let free = law.frees a s'.world live in
        cancelled (Represents-Frees canard view kind_for m p a _ _ _ t free c all leaving) (λ b eb.
          subst (λ x. ¬ view.IsLive (canard.deallocate a s'.world) x)
            (some-injective _ _ (sym c.was ∙ leaving.table p ∙ eb)) free.freed)

    unsubscribed_lem :
        (s' : State W) (result : ℤ) (w : W)
        → Unsubscribes canard view (kind_for p) p w result s'.world
        → Represents canard view kind_for m w s'.subscriptions
        → Cancellation m p (unsubscribed canard p result s').0 (unsubscribed canard p result s').1
    unfolding unsubscribed
    unsubscribed_lem s' (negsuc n) w (rejected keep same) r = kept (
        Represents-Preserves canard view kind_for (λ b. ⊥) m w _ _ keep same
          (AllObjects-map s'.subscriptions (λ b l. (l, λ x. x)) r.live) r)
    unsubscribed_lem s' (pos zero) w (unknown was keep same) r =
        let e = sym (r.registry p) ∙ was in
        cancelled
          (Represents-absent m p _ _ e (
            Represents-Preserves canard view kind_for (λ b. ⊥) m w _ _ keep same
              (AllObjects-map s'.subscriptions (λ b l. (l, λ x. x)) r.live) r))
          (λ a ea. absurd (cc (sym e ∙ ea)))
    unsubscribed_lem s' (pos (suc n)) w (removed {b = b} was keep same gone) r =
        let leaving = Leaving-Preserves canard view kind_for m p w _ _ keep same gone r in
        forget_found_lem s' _ b (clear_port-Clearing _ p s'.subscriptions leaving.one)
          (clear_port-AllAfter _ _ p s'.subscriptions leaving.live) (sym (r.registry p) ∙ was)
          leaving

  -- With lawful libcanard and heap, and each port used with one kind: from a state whose table and
  -- registry both hold a map of subscriptions, leos_cyphal_unsubscribe ends OK, both then hold the
  -- map without the port, and its object, if it had one, is freed; or in an error of libcanard,
  -- with both as they were. Whatever it frees is allocated.
  pub unsubscribe_node-Cancellation :
      (law : Lawful canard view) (m : ℕ → Option ℕ) (p : ℕ) (s : State W)
      → Represents canard view kind_for m s.world s.subscriptions
      → Cancellation m p
          (unsubscribe_node canard (kind_for p) p s).0
          (unsubscribe_node canard (kind_for p) p s).1
  unfolding unsubscribe_node
  unsubscribe_node-Cancellation law m p s r =
      unsubscribed_lem law m p _ _ s.world (law.unsubscribes (kind_for p) p s.world) r

  forget_other :
      (law : Lawful canard view) (p a : ℕ) (kind : Kind) (s' : State W) (o : Option (ℕ × Table))
      (t' : Table)
      → o ≡ some (a, t')
      → view.IsLive s'.world a
      → view.registered s'.world kind p ≡ some a
      → let s'' = (forget_found canard o s').1 in
        (view.registered s''.world kind p ≡ some a) × ¬ view.IsLive s''.world a
  unfolding forget_found free_entry
  forget_other law p a kind s' none t' e live reg = absurd (cc e)
  forget_other law p a kind s' (some (old, t)) t' e live reg =
      let same = ap (λ x. x.0) (some-injective _ _ e) in
      let free = law.frees old s'.world (subst (λ x. view.IsLive s'.world x) (sym same) live) in
      (
        free.registry kind p (λ x. x) ∙ reg,
        subst (λ x. ¬ view.IsLive (canard.deallocate old s'.world) x) same free.freed,
      )

  unsubscribed_other :
      (law : Lawful canard view) (p a : ℕ) (kind k : Kind) (s' : State W) (result : ℤ) (w : W)
      (n : ℕ)
      → Unsubscribes canard view k p w result s'.world
      → result ≡ pos (suc n)
      → kind ≢ k
      → AllObjects (view.IsLive w) s'.subscriptions
      → view.registered w kind p ≡ some a
      → find (canard.port_of w) p s'.subscriptions ≡ some a
      → let s'' = (unsubscribed canard p result s').1 in
        (view.registered s''.world kind p ≡ some a) × ¬ view.IsLive s''.world a
  unfolding unsubscribed
  unsubscribed_other law p a kind k s' (negsuc i) w n u e ne live reg at = absurd (cc e)
  unsubscribed_other law p a kind k s' (pos zero) w n u e ne live reg at = absurd (cc e)
  unsubscribed_other law p a kind k s' (pos (suc i)) w n (removed was keep same gone) e ne live reg
        at =
      let ports =
        AllObjects-map {Q = λ b. canard.port_of w b ≡ canard.port_of s'.world b} s'.subscriptions
          (λ b l. keep.port b l (λ x. x)) live in
      let (t', found) =
        clear_port-find (canard.port_of s'.world) p a s'.subscriptions
          (sym (find-ports _ _ p s'.subscriptions ports) ∙ at) in
      forget_other law p a kind s' _ t' found
        (keep.live a (find-AllObjects _ _ p s'.subscriptions a live at).0 (λ x. x))
        (same kind p (λ (x, _). ne x) ∙ reg)

  -- Where the first object of a port in the table is registered for one kind, and libcanard removes
  -- a registration of another kind `k` at that port: to unsubscribe `k` frees the object of the
  -- first kind, which stays registered.
  pub unsubscribe_node_other_kind :
      (law : Lawful canard view) (p a : ℕ) (kind k : Kind) (n : ℕ) (s : State W)
      → AllObjects (view.IsLive s.world) s.subscriptions
      → find (canard.port_of s.world) p s.subscriptions ≡ some a
      → view.registered s.world kind p ≡ some a
      → kind ≢ k
      → (canard.rx_unsubscribe k p s.world).0 ≡ pos (suc n)
      → let s' = (unsubscribe_node canard k p s).1 in
        (view.registered s'.world kind p ≡ some a) × ¬ view.IsLive s'.world a
  unfolding unsubscribe_node
  unsubscribe_node_other_kind law p a kind k n s live at reg ne done =
      unsubscribed_other law p a kind k _ (canard.rx_unsubscribe k p s.world).0 s.world n
        (law.unsubscribes k p s.world) done ne live reg at
