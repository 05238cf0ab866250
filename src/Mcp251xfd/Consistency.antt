-- ===== src/Mcp251xfd/Consistency.antt =====
-- What ties the table by pin, the contexts and the devices together.
use leos_sdk.Prelude.{ℕ, ◌<◌, ◌≡◌, refl, sym, ap, ◌∙◌, Option, none, some}
use mathlib.Core.Path.{subst}
use mathlib.Core.Option.{some-injective}
use leos_sdk.Prelude.Maps.{put, put_cases}
use leos_sdk.Mcp251xfd.Types.{Hw, Context}
use leos_sdk.Mcp251xfd.State.{
  State, gpio_count, Action, continue, get_context, set_context, modify_context, found,
}

abbrev pub HasPin : ℕ → Option Context → Type 0
HasPin pin o = (c : Context) × (o ≡ some c) × (c.hw.pin_irq ≡ pin)

abbrev pub InTable : Option Context → Type 0
InTable o = (c : Context) × (o ≡ some c) × (c.hw.pin_irq < gpio_count)

module _ {W : Type 0} where
  -- An entry of the table leads to a context of that pin, a device to a context whose pin is in
  -- the table, and no two devices share a context.
  pub record IsConsistent (s : State W) : Type 0 where
    pub entry : (pin a : ℕ) → s.ctx_by_gpio pin ≡ some a → HasPin pin (s.contexts a)
    pub owned : (dev a : ℕ) → (s.devices dev).user_driver_data ≡ some a → InTable (s.contexts a)
    pub unique :
        (dev dev' a : ℕ)
        → (s.devices dev).user_driver_data ≡ some a
        → (s.devices dev').user_driver_data ≡ some a
        → dev ≡ dev'

  -- A step that does not fault, after which the property holds.
  pub data Safe {A : Type 0} (P : A → State W → Type 0) : Option (A × State W) → Type 0 where
    safe : {a : A} {s : State W} → P a s → Safe P (some (a, s))

  pub Safe-continue :
      {A B : Type 0} (P : A → State W → Type 0) (Q : B → State W → Type 0) (f : A → Action W B)
      (o : Option (A × State W))
      → Safe P o
      → ((a : A) (s : State W) → P a s → Safe Q (f a s))
      → Safe Q (continue f o)
  Safe-continue P Q f none h k = elim h [ ]
  Safe-continue P Q f (some (a, s)) (safe h) k = k a s h

  -- The contexts keep their hardware configurations, all else but the world is the same.
  pub record SameShape (s s' : State W) : Type 0 where
    pub table : s'.ctx_by_gpio ≡ s.ctx_by_gpio
    pub devices : s'.devices ≡ s.devices
    pub contexts :
        (a : ℕ) (c : Context)
        → s.contexts a ≡ some c
        → (c' : Context) × (s'.contexts a ≡ some c') × (c'.hw ≡ c.hw)

  pub SameShape-refl : (s : State W) (w : W) → SameShape s (record s { world = w })
  SameShape-refl s w = record { table = refl; devices = refl; contexts = λ a c e. (c, e, refl) }

  pub SameShape-trans : (s t u : State W) → SameShape s t → SameShape t u → SameShape s u
  SameShape-trans s t u st tu = record {
    table = tu.table ∙ st.table;
    devices = tu.devices ∙ st.devices;
    contexts = λ a c e.
        let (c', e', h') = st.contexts a c e in
        let (c'', e'', h'') = tu.contexts a c' e' in (c'', e'', h'' ∙ h');
  }

  pub IsConsistent-SameShape : (s s' : State W) → SameShape s s' → IsConsistent s → IsConsistent s'
  IsConsistent-SameShape s s' same h = record {
    entry = λ pin a e.
        let (c, ec, pin_c) = h.entry pin a (ap (λ f. f pin) (sym same.table) ∙ e) in
        let (c', ec', hw) = same.contexts a c ec in
        (c', ec', ap (λ (x : Hw). x.pin_irq) hw ∙ pin_c);
    owned = λ dev a e.
        let (c, ec, pin_c) =
          h.owned dev a (ap (λ f. (f dev).user_driver_data) (sym same.devices) ∙ e) in
        let (c', ec', hw) = same.contexts a c ec in
        (c', ec', subst (λ (x : Hw). x.pin_irq < gpio_count) (sym hw) pin_c);
    unique = λ dev dev' a e e'.
        h.unique dev dev' a (ap (λ f. (f dev).user_driver_data) (sym same.devices) ∙ e)
          (ap (λ f. (f dev').user_driver_data) (sym same.devices) ∙ e');
  }

  -- A step that faults nowhere and keeps the shape.
  abbrev pub Keeps : {A : Type 0} → State W → Option (A × State W) → Type 0
  Keeps s o = Safe (λ a t. SameShape s t) o

  found-Keeps :
      (s : State W) (o : Option Context) (c : Context)
      → o ≡ some c
      → Safe (λ c' t. (t ≡ s) × (c' ≡ c)) (found s o)
  found-Keeps s none c e = absurd (cc e)
  found-Keeps s (some c') c e = safe (refl, some-injective c' c e)

  pub set_context-SameShape :
      (a : ℕ) (c c' : Context) (s : State W)
      → s.contexts a ≡ some c
      → c'.hw ≡ c.hw
      → SameShape s (record s { contexts = put s.contexts a (some c') })
  set_context-SameShape a c c' s e same = record {
    table = refl;
    devices = refl;
    contexts = λ b d eb.
        put_cases (λ k o. s.contexts k ≡ some d → (d' : Context) × (o ≡ some d') × (d'.hw ≡ d.hw))
          s.contexts a (some c') b
          (λ ea. (c', refl, same ∙ ap (λ (x : Context). x.hw) (some-injective _ _ (sym e ∙ ea))))
          (λ _ ea. (d, ea, refl)) eb;
  }

  pub modify_context-Keeps :
      (a : ℕ) (f : Context → Context) (s : State W) (c : Context)
      → ((c : Context) → (f c).hw ≡ c.hw)
      → s.contexts a ≡ some c
      → Keeps s (modify_context a f s)
  unfolding modify_context get_context set_context
  modify_context-Keeps a f s c same e = rw e (safe (set_context-SameShape a c (f c) s e (same c)))
