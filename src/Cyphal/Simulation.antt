-- ===== src/Cyphal/Simulation.antt =====
-- A libcanard and a heap that obey the laws, for the examples.
use leos_sdk.Prelude.{
  ℕ, ◌+◌, ◌<◌, Bool, true, false, if◌then◌else◌, if_cases, ◌==◌, ==_iff, ◌≡◌, refl, sym, ap, ◌∙◌,
  arith, Option, none, some,
}
use mathlib.Core.Option.{some-injective}
use leos_sdk.Prelude.Maps.{put, put_here, put_other}
use leos_sdk.Prelude.Int.{ℤ, pos}
use leos_sdk.Cyphal.Node.{Kind, message, response, request, Canard, Handler}
use leos_sdk.Cyphal.Laws.{
  View, SameRegistry, Allocates, Frees, Registers, Subscribes, replaced, created, Unsubscribes,
  unknown, removed, Lawful,
}

-- Addresses are handed out in order, never twice.
pub record Sim : Type 0 where
  pub next : ℕ
  pub freed : ℕ → Bool
  pub ports : ℕ → ℕ
  pub registry : Kind → ℕ → Option ℕ

abbrev same_kind : Kind → Kind → Bool
same_kind message message = true
same_kind message response = false
same_kind message request = false
same_kind response message = false
same_kind response response = true
same_kind response request = false
same_kind request message = false
same_kind request response = false
same_kind request request = true

same_kind_lem : (k k' : Kind) → same_kind k k' ≡ true → k ≡ k'
same_kind_lem message message e = refl
same_kind_lem message response e = absurd (cc e)
same_kind_lem message request e = absurd (cc e)
same_kind_lem response message e = absurd (cc e)
same_kind_lem response response e = refl
same_kind_lem response request e = absurd (cc e)
same_kind_lem request message e = absurd (cc e)
same_kind_lem request response e = absurd (cc e)
same_kind_lem request request e = refl

same_kind_refl : (k : Kind) → same_kind k k ≡ true
same_kind_refl message = refl
same_kind_refl response = refl
same_kind_refl request = refl

abbrev pub put_key : (Kind → ℕ → Option ℕ) → Kind → ℕ → Option ℕ → Kind → ℕ → Option ℕ
put_key f k p o k' q = if same_kind k' k then put (f k') p o q else f k' q

put_key_here : (f : Kind → ℕ → Option ℕ) (k : Kind) (p : ℕ) (o : Option ℕ) → put_key f k p o k p ≡ o
put_key_here f k p o = rw (same_kind_refl k) (put_here (f k) p o)

put_key_other :
    (f : Kind → ℕ → Option ℕ) (k : Kind) (p : ℕ) (o : Option ℕ) (k' : Kind) (q : ℕ)
    → ¬ ((k' ≡ k) × (q ≡ p))
    → put_key f k p o k' q ≡ f k' q
put_key_other f k p o k' q ne =
    if_cases (λ x. x ≡ f k' q) (same_kind k' k)
      (λ e. put_other (f k') p o q (λ eq. ne (same_kind_lem k' k e, eq))) (λ _. refl)

abbrev pub subscribe_result : Option ℕ → ℤ
subscribe_result none = pos 1
subscribe_result (some _) = pos 0

abbrev pub unsubscribe_result : Option ℕ → ℤ
unsubscribe_result none = pos 0
unsubscribe_result (some _) = pos 1

abbrev pub simulation : Canard Sim
simulation = record {
  allocate = λ w. (some w.next, record w { next = w.next + 1; freed = put w.freed w.next false });
  deallocate = λ a w. record w { freed = put w.freed a true };
  rx_subscribe = λ k p extent a w. (
    subscribe_result (w.registry k p),
    record w { ports = put w.ports a p; registry = put_key w.registry k p (some a) },
  );
  rx_unsubscribe = λ k p w.
      (unsubscribe_result (w.registry k p), record w { registry = put_key w.registry k p none });
  port_of = λ w a. w.ports a;
}

abbrev pub sim_view : View Sim
sim_view = record {
  registered = λ w k p. w.registry k p;
  IsLive = λ w a. (a < w.next) × (w.freed a ≡ false);
}

sim-Allocates :
    (w : Sim) → Allocates simulation sim_view w (simulation.allocate w).0 (simulation.allocate w).1
sim-Allocates w = record {
  kept = record {
    live = λ b (l, f) _. (omega arith, put_other w.freed w.next false b (λ e. omega arith) ∙ f);
    port = λ b l _. refl;
  };
  registry = λ k p _. refl;
  fresh = λ a e (l, _). let e' = some-injective _ _ e in omega arith;
  allocated = λ a e.
      let e' = some-injective _ _ e in
      (omega arith, ap (put w.freed w.next false) (sym e') ∙ put_here w.freed w.next false);
}

sim-Frees : (a : ℕ) (w : Sim) → Frees simulation sim_view a w (simulation.deallocate a w)
sim-Frees a w = record {
  kept = record {
    live = λ b (l, f) ne. (l, put_other w.freed a true b ne ∙ f);
    port = λ b l _. refl;
  };
  registry = λ k p _. refl;
  freed = λ (l, f). absurd (cc (sym (put_here w.freed a true) ∙ f));
}

sim-Registers :
    (k : Kind) (p extent a : ℕ) (w : Sim)
    → sim_view.IsLive w a
    → Registers simulation sim_view k p a w (simulation.rx_subscribe k p extent a w).1
sim-Registers k p extent a w live = record {
  kept = record { live = λ b l _. l; port = λ b l ne. sym (put_other w.ports a p b ne) };
  registry = λ k' q ne. put_key_other w.registry k p (some a) k' q ne;
  live = live;
  port = put_here w.ports a p;
  at_key = put_key_here w.registry k p (some a);
}

sim-Subscribes :
    (k : Kind) (p extent a : ℕ) (w : Sim) (o : Option ℕ)
    → w.registry k p ≡ o
    → sim_view.IsLive w a
    → Subscribes simulation sim_view k p a w
        (subscribe_result o)
        (simulation.rx_subscribe k p extent a w).1
sim-Subscribes k p extent a w none e live = created e (sim-Registers k p extent a w live)
sim-Subscribes k p extent a w (some b) e live = replaced e (sim-Registers k p extent a w live)

sim_same :
    (k : Kind) (p : ℕ) (w : Sim)
    → w.registry k p ≡ none
    → SameRegistry simulation sim_view (λ k q. ⊥) w (simulation.rx_unsubscribe k p w).1
sim_same k p w e k' q _ =
    if_cases (λ x. x ≡ w.registry k' q) (same_kind k' k)
      (λ ek.
        if_cases (λ x. x ≡ w.registry k' q) (q == p)
          (λ eq. sym (
            ap (λ x. w.registry x q) (same_kind_lem k' k ek)
            ∙ ap (λ x. w.registry k x) ((==_iff q p).0 eq)
            ∙ e))
          (λ _. refl))
      (λ _. refl)

sim-Unsubscribes :
    (k : Kind) (p : ℕ) (w : Sim) (o : Option ℕ)
    → w.registry k p ≡ o
    → Unsubscribes simulation sim_view k p w
        (unsubscribe_result o)
        (simulation.rx_unsubscribe k p w).1
sim-Unsubscribes k p w none e =
    unknown e (record { live = λ b l _. l; port = λ b l _. refl }) (sim_same k p w e)
sim-Unsubscribes k p w (some b) e =
    removed e (record { live = λ b l _. l; port = λ b l _. refl })
      (λ k' q ne. put_key_other w.registry k p none k' q ne) (put_key_here w.registry k p none)

pub simulation-Lawful : Lawful simulation sim_view
simulation-Lawful = record {
  allocates = sim-Allocates;
  frees = λ a w _. sim-Frees a w;
  subscribes = λ k p extent a w live. sim-Subscribes k p extent a w (w.registry k p) refl live;
  unsubscribes = λ k p w. sim-Unsubscribes k p w (w.registry k p) refl;
}

-- No object and no subscription.
abbrev pub no_objects : Sim
no_objects = record { next = 1; freed = λ a. false; ports = λ a. 0; registry = λ k p. none }

abbrev pub no_handlers : ℕ → Handler
no_handlers a = record { user_reference = none; callback = 0; user_ref = 0 }
