-- ===== src/Mcp251xfd/Ready.antt =====
-- A context with a receive callback stays so through calls of the library and their interrupts.
use leos_sdk.Prelude.{
  ℕ, Bool, true, if_cases, leb, ◌≡◌, refl, sym, ap, ◌∙◌, Option, none, some, List, [], ◌∷◌,
}
use mathlib.Core.Option.{some-injective}
use leos_sdk.Prelude.Maps.{put_cases}
use leos_sdk.Mcp251xfd.Types.{Context, Reply}
use leos_sdk.Mcp251xfd.State.{State, gpio_count, pure, get_context, set_context, modify_context}
use leos_sdk.Mcp251xfd.Driver.{latch, irq_handler, handle_edges, call}
use leos_sdk.Mcp251xfd.Consistency.{
  IsConsistent, Safe, safe, Safe-continue, IsConsistent-SameShape, SameShape-refl,
  set_context-SameShape,
}

-- The context at an address, with the callback `f` and its reference.
abbrev pub Calls : ℕ → ℕ → Option Context → Type 0
Calls f reference o =
    (c : Context) × (o ≡ some c) × (c.rx_cb ≡ some f) × (c.cb_user_reference ≡ reference)

module _ {W : Type 0} (a f reference : ℕ) where
  pub record Ready (s : State W) : Type 0 where
    pub con : IsConsistent s
    pub context : Calls f reference (s.contexts a)

  pub Ready-world : (s : State W) (w : W) → Ready s → Ready (record s { world = w })
  Ready-world s w r = record {
    con = IsConsistent-SameShape s (record s { world = w }) (SameShape-refl s w) r.con;
    context = r.context;
  }

  -- A step that ends ready, with the world and the value given.
  abbrev pub Gives : {A : Type 0} → W → A → Option (A × State W) → Type 0
  Gives w v o = Safe (λ x t. Ready t × (t.world ≡ w) × (x ≡ v)) o

  pub modify_context-Ready :
      (b : ℕ) (pending : Bool) (s : State W) (c : Context)
      → Ready s
      → s.contexts b ≡ some c
      → Gives s.world tt (modify_context b (λ c. record c { irq_pending = pending }) s)
  unfolding modify_context get_context set_context
  modify_context-Ready b pending s c r e =
      let c' = record c { irq_pending = pending } in
      let (d, ed, cb, ref) = r.context in
      rw e (
        safe (
          record {
            con = IsConsistent-SameShape s _ (set_context-SameShape b c c' s e refl) r.con;
            context =
                put_cases (λ k o. s.contexts k ≡ some d → Calls f reference o) s.contexts b
                  (some c') a
                  (λ same.
                    let same_context = some-injective _ _ (sym e ∙ same) in
                    (
                      c',
                      refl,
                      ap (λ (x : Context). x.rx_cb) same_context ∙ cb,
                      ap (λ (x : Context). x.cb_user_reference) same_context ∙ ref,
                    ))
                  (λ _ same. (d, same, cb, ref)) ed;
          },
          refl,
          refl,
        ))

  latch-Ready :
      (pin : ℕ) (o : Option ℕ) (s : State W)
      → Ready s
      → s.ctx_by_gpio pin ≡ o
      → Gives s.world tt (latch o s)
  unfolding latch
  latch-Ready pin none s r e = safe (r, refl, refl)
  latch-Ready pin (some b) s r e =
      let (c, ec, _) = r.con.entry pin b e in modify_context-Ready b true s c r ec

  irq_handler-Ready :
      (gpio : ℕ) (s : State W) → Ready s → Gives s.world tt (irq_handler gpio true s)
  unfolding irq_handler
  irq_handler-Ready gpio s r =
      if_cases (λ (o : Option (Unit {0} × State W)). Gives s.world tt o) (leb gpio_count gpio)
        (λ _. safe (r, refl, refl)) (λ _. latch-Ready gpio (s.ctx_by_gpio gpio) s r refl)

  handle_edges-Ready :
      (edges : List ℕ) (s : State W) → Ready s → Gives s.world tt (handle_edges edges s)
  unfolding handle_edges
  handle_edges-Ready [] s r = safe (r, refl, refl)
  handle_edges-Ready (gpio ∷ edges) s r =
      Safe-continue (λ x t. Ready t × (t.world ≡ s.world) × (x ≡ tt))
        (λ x t. Ready t × (t.world ≡ s.world) × (x ≡ tt)) (λ _. handle_edges edges)
        (irq_handler gpio true s) (irq_handler-Ready gpio s r)
        (λ x t (rt, w, _). rw (sym w) (handle_edges-Ready edges t rt))

  pub call-Ready :
      {A : Type 0} (g : W → Reply W A) (s : State W)
      → Ready s
      → let r = g s.world in Gives r.world (r.err, r.out) (call g s)
  unfolding call
  call-Ready g s ready =
      let r = g s.world in
      Safe-continue (λ x t. Ready t × (t.world ≡ r.world) × (x ≡ tt))
        (λ x t. Ready t × (t.world ≡ r.world) × (x ≡ (r.err, r.out))) (λ _. pure (r.err, r.out))
        (handle_edges r.edges (record s { world = r.world }))
        (handle_edges-Ready r.edges (record s { world = r.world }) (Ready-world s r.world ready))
        (λ x t (rt, w, _). safe (rt, w, refl))
