-- ===== src/Mcp251xfd/Stable.antt =====
-- Steps that fault nowhere and keep the shape of the state: calls of the library with the
-- interrupts during them, and the service of events.
use leos_sdk.Prelude.{
  ℕ, Bool, true, false, if_cases, leb, ◌≡◌, refl, Option, none, some, List, [], ◌∷◌,
}
use leos_sdk.Mcp251xfd.Types.{Context, Reply}
use leos_sdk.Mcp251xfd.State.{State, gpio_count, Action, pure, ◌>>=◌}
use leos_sdk.Mcp251xfd.Driver.{latch, irq_handler, handle_edges, call}
use leos_sdk.Mcp251xfd.Consistency.{
  IsConsistent, safe, Safe-continue, SameShape, SameShape-refl, SameShape-trans,
  IsConsistent-SameShape, Keeps, modify_context-Keeps,
}

module _ {W : Type 0} where
  abbrev pub IsLive : ℕ → State W → Type 0
  IsLive a s = (c : Context) × (s.contexts a ≡ some c)

  pub IsLive-SameShape : (a : ℕ) (s t : State W) → SameShape s t → IsLive a s → IsLive a t
  IsLive-SameShape a s t same (c, e) = let (c', e', _) = same.contexts a c e in (c', e')

  -- From a consistent state, where the address `a` holds a context.
  abbrev pub Stable : {A : Type 0} → ℕ → Action W A → Type 0
  Stable a m = (s : State W) → IsConsistent s → IsLive a s → Keeps s (m s)

  pub Keeps-trans :
      {A : Type 0} (s t : State W)
      → SameShape s t
      → (o : Option (A × State W)) → Keeps t o
      → Keeps s o
  Keeps-trans s t same none h = elim h [ ]
  Keeps-trans s t same (some (x, u)) (safe h) = safe (SameShape-trans s t u same h)

  pub Stable-bind :
      {A B : Type 0} (a : ℕ) (m : Action W A) (f : A → Action W B)
      → Stable a m
      → ((x : A) → Stable a (f x))
      → Stable a (m >>= f)
  Stable-bind a m f sm sf s con live =
      Safe-continue (λ _ t. SameShape s t) (λ _ t. SameShape s t) f (m s) (sm s con live)
        (λ x t same.
          Keeps-trans s t same _
            (sf x t (IsConsistent-SameShape s t same con) (IsLive-SameShape a s t same live)))

  pub Stable-pure : {A : Type 0} (a : ℕ) (x : A) → Stable a (pure x)
  Stable-pure a x s con live = safe (SameShape-refl s s.world)

  latch-Keeps :
      (pin : ℕ) (o : Option ℕ) (s : State W)
      → IsConsistent s
      → s.ctx_by_gpio pin ≡ o
      → Keeps s (latch o s)
  unfolding latch
  latch-Keeps pin none s con e = safe (SameShape-refl s s.world)
  latch-Keeps pin (some b) s con e =
      let (c, ec, _) = con.entry pin b e in modify_context-Keeps b _ s c (λ c. refl) ec

  pub irq_handler-Keeps :
      (gpio : ℕ) (falling : Bool) (s : State W)
      → IsConsistent s
      → Keeps s (irq_handler gpio falling s)
  unfolding irq_handler
  irq_handler-Keeps gpio false s con = safe (SameShape-refl s s.world)
  irq_handler-Keeps gpio true s con =
      if_cases (λ (o : Option (Unit {0} × State W)). Keeps s o) (leb gpio_count gpio)
        (λ _. safe (SameShape-refl s s.world))
        (λ _. latch-Keeps gpio (s.ctx_by_gpio gpio) s con refl)

  pub handle_edges-Stable : (a : ℕ) (edges : List ℕ) → Stable a (handle_edges edges)
  unfolding handle_edges
  handle_edges-Stable a [] = Stable-pure a tt
  handle_edges-Stable a (gpio ∷ edges) =
      Stable-bind a (irq_handler gpio true) (λ _. handle_edges edges)
        (λ s con live. irq_handler-Keeps gpio true s con) (λ _. handle_edges-Stable a edges)

  -- What happens in another world happens in this one, up to the world.
  pub call-Stable : {A : Type 0} (a : ℕ) (f : W → Reply W A) → Stable a (call f)
  unfolding call
  call-Stable a f s con live =
      let r = f s.world in
      let t = record s { world = r.world } in
      let same = SameShape-refl s r.world in
      Keeps-trans s t same _ (
        Stable-bind a (handle_edges r.edges) (λ _. pure (r.err, r.out))
          (handle_edges-Stable a r.edges) (λ _. Stable-pure a (r.err, r.out)) t
          (IsConsistent-SameShape s t same con) (IsLive-SameShape a s t same live))
