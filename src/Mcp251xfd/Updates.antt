-- ===== src/Mcp251xfd/Updates.antt =====
-- Changes of the state that keep the table, the contexts and the devices consistent.
use leos_sdk.Prelude.{ℕ, ◌<◌, ◌≡◌, ◌≢◌, refl, sym, ap, ◌∙◌, none, some}
use mathlib.Core.Path.{subst}
use mathlib.Core.Option.{some-injective}
use leos_sdk.Prelude.Maps.{put, put_here, put_other, put_cases}
use leos_sdk.Mcp251xfd.Types.{Context, Device}
use leos_sdk.Mcp251xfd.State.{State, gpio_count}
use leos_sdk.Mcp251xfd.Consistency.{IsConsistent, HasPin, InTable}

none-ne-some : {a : ℕ} → none ≡ some a → ⊥
none-ne-some e = cc e

module _ {W : Type 0} where
  -- The context of a device after one device is given none but what it had.
  user-put :
      (s : State W) (dev : ℕ) (d : Device)
      → ((b : ℕ) → d.user_driver_data ≡ some b → (s.devices dev).user_driver_data ≡ some b)
      → (dev' b : ℕ) → (put s.devices dev d dev').user_driver_data ≡ some b
      → (s.devices dev').user_driver_data ≡ some b
  user-put s dev d same dev' b =
      put_cases
        (λ k (x : Device). x.user_driver_data ≡ some b → (s.devices k).user_driver_data ≡ some b)
        s.devices dev d dev' (same b) (λ _ e. e)

  -- A device is given new data, with the context that it had or with none.
  pub set_device-IsConsistent :
      (s : State W) (dev : ℕ) (d : Device)
      → IsConsistent s
      → ((b : ℕ) → d.user_driver_data ≡ some b → (s.devices dev).user_driver_data ≡ some b)
      → IsConsistent (record s { devices = put s.devices dev d })
  set_device-IsConsistent s dev d con same = record {
    entry = con.entry;
    owned = λ dev' b e. con.owned dev' b (user-put s dev d same dev' b e);
    unique = λ dev₁ dev₂ b e₁ e₂.
        con.unique dev₁ dev₂ b (user-put s dev d same dev₁ b e₁) (user-put s dev d same dev₂ b e₂);
  }

  -- A context enters the table at its pin.
  pub set_entry-IsConsistent :
      (s : State W) (pin a : ℕ)
      → IsConsistent s
      → HasPin pin (s.contexts a)
      → IsConsistent (record s { ctx_by_gpio = put s.ctx_by_gpio pin (some a) })
  set_entry-IsConsistent s pin a con h = record {
    entry = λ gpio b.
        put_cases (λ k o. o ≡ some b → HasPin k (s.contexts b)) s.ctx_by_gpio pin (some a) gpio
          (λ e. subst (λ x. HasPin pin (s.contexts x)) (some-injective _ _ e) h)
          (λ _ e. con.entry gpio b e);
    owned = con.owned;
    unique = con.unique;
  }

  -- A context leaves the table, its device and the heap.
  pub discard-IsConsistent :
      (s : State W) (dev a : ℕ) (c : Context) (d : Device) (w : W)
      → IsConsistent s
      → s.contexts a ≡ some c
      → (s.devices dev).user_driver_data ≡ some a
      → d.user_driver_data ≡ none
      → IsConsistent (record {
        ctx_by_gpio = put s.ctx_by_gpio c.hw.pin_irq none;
        contexts = put s.contexts a none;
        devices = put s.devices dev d;
        world = w;
      })
  discard-IsConsistent s dev a c d w con e user no_user = record {
    entry = λ gpio b.
        put_cases (λ k o. o ≡ some b → HasPin k (put s.contexts a none b)) s.ctx_by_gpio
          c.hw.pin_irq none gpio (λ eb. absurd (cc eb))
          (λ ne eb.
            let (c', e', h) = con.entry gpio b eb in
            (
              c',
              put_other s.contexts a none b (λ ea. ne (
                    sym h
                    ∙ ap (λ (x : Context). x.hw.pin_irq)
                        (some-injective _ _ (sym e' ∙ ap s.contexts ea ∙ e))))
                  ∙ e',
              h,
            ));
    owned = λ dev' b.
        put_cases
          (λ k (x : Device). x.user_driver_data ≡ some b → InTable (put s.contexts a none b))
          s.devices dev d dev' (λ eb. absurd (cc (sym no_user ∙ eb)))
          (λ ne eb.
            let (c', e', h) = con.owned dev' b eb in
            (
              c',
              put_other s.contexts a none b
                    (λ ea. ne (con.unique dev' dev a (eb ∙ ap some ea) user))
                  ∙ e',
              h,
            ));
    unique = λ dev₁ dev₂ b e₁ e₂.
        let same =
          λ (x : ℕ) (ex : d.user_driver_data ≡ some x). absurd (none-ne-some (sym no_user ∙ ex)) in
        con.unique dev₁ dev₂ b (user-put s dev d same dev₁ b e₁) (user-put s dev d same dev₂ b e₂);
  }

  -- A new context, of a pin of the table, is given to a device.
  pub adopt-IsConsistent :
      (s : State W) (dev a : ℕ) (d : Device) (c : Context) (w : W)
      → IsConsistent s
      → s.contexts a ≡ none
      → c.hw.pin_irq < gpio_count
      → d.user_driver_data ≡ some a
      → IsConsistent (record s {
        contexts = put s.contexts a (some c);
        devices = put s.devices dev d;
        world = w;
      })
  adopt-IsConsistent s dev a d c w con new pin user = record {
    entry = λ gpio b e. let (c', e', h) = con.entry gpio b e in (c', kept b c' e', h);
    owned = λ dev' b.
        put_cases
          (λ k (x : Device). x.user_driver_data ≡ some b → InTable (put s.contexts a (some c) b))
          s.devices dev d dev'
          (λ e. (
            c,
            ap (put s.contexts a (some c)) (some-injective _ _ (sym e ∙ user))
                ∙ put_here s.contexts a (some c),
            pin,
          ))
          (λ _ e. let (c', e', h) = con.owned dev' b e in (c', kept b c' e', h));
    unique = λ dev₁ dev₂ b.
        put_cases
          (λ k₁ (x : Device).
            x.user_driver_data ≡ some b
            → (put s.devices dev d dev₂).user_driver_data ≡ some b
            → k₁ ≡ dev₂)
          s.devices dev d dev₁
          (λ e₁.
            put_cases (λ k₂ (x : Device). x.user_driver_data ≡ some b → dev ≡ k₂) s.devices dev d
              dev₂ (λ e₂. refl)
              (λ ne₂ e₂. absurd (taken dev₂ b e₂ (some-injective _ _ (sym e₁ ∙ user)))))
          (λ ne₁ e₁.
            put_cases (λ k₂ (x : Device). x.user_driver_data ≡ some b → dev₁ ≡ k₂) s.devices dev d
              dev₂ (λ e₂. absurd (taken dev₁ b e₁ (some-injective _ _ (sym e₂ ∙ user))))
              (λ ne₂ e₂. con.unique dev₁ dev₂ b e₁ e₂));
  }
    where
      kept : (b : ℕ) (c' : Context) → s.contexts b ≡ some c' → put s.contexts a (some c) b ≡ some c'
      kept b c' e =
          put_other s.contexts a (some c) b (λ ea. cc (sym new ∙ ap s.contexts (sym ea) ∙ e)) ∙ e

      taken : (dev' b : ℕ) → (s.devices dev').user_driver_data ≡ some b → b ≢ a
      taken dev' b e ea =
          let (c', e', _) = con.owned dev' b e in cc (sym new ∙ ap s.contexts (sym ea) ∙ e')
