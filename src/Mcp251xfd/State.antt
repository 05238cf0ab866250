-- ===== src/Mcp251xfd/State.antt =====
-- The driver's state, and steps that may fault.
use leos_sdk.Prelude.{ℕ, if◌then◌else◌, ltb, Option, none, some}
use leos_sdk.Prelude.Maps.{put}
use leos_sdk.Mcp251xfd.Types.{Context, Device}

-- `s_ctx_by_gpio` by the pin, the contexts that are allocated by their address, and the devices by
-- their address.
pub record State (W : Type 0) : Type 0 where
  pub ctx_by_gpio : ℕ → Option ℕ
  pub contexts : ℕ → Option Context
  pub devices : ℕ → Device
  pub world : W

abbrev pub gpio_count : ℕ
gpio_count = 48

-- `none` is a fault: an access to a context that is not allocated, or outside the table.
abbrev pub Action : Type 0 → Type 0 → Type 0
Action W A = State W → Option (A × State W)

module _ {W : Type 0} where
  abbrev pub pure : {A : Type 0} → A → Action W A
  pure a s = some (a, s)

  abbrev pub fault : {A : Type 0} → Action W A
  fault s = none

  abbrev pub continue :
      {A B : Type 0} → (A → Action W B) → Option (A × State W) → Option (B × State W)
  continue f none = none
  continue f (some (a, s)) = f a s

  infixl 5 ◌>>=◌ ◌>>◌
  abbrev pub ◌>>=◌ : {A B : Type 0} → Action W A → (A → Action W B) → Action W B
  ◌>>=◌ m f s = continue f (m s)

  abbrev pub ◌>>◌ : {A B : Type 0} → Action W A → Action W B → Action W B
  m >> k = m >>= λ _. k

  -- A call of the SDK that answers nothing.
  abbrev pub effect : (W → W) → Action W (Unit {0})
  effect f s = some (tt, record s { world = f s.world })

  abbrev pub get_device : ℕ → Action W Device
  get_device dev s = some (s.devices dev, s)

  abbrev pub set_device : ℕ → Device → Action W (Unit {0})
  set_device dev v s = some (tt, record s { devices = put s.devices dev v })

  -- A read of a context, and a write to it.
  abbrev pub found : State W → Option Context → Option (Context × State W)
  found s none = none
  found s (some c) = some (c, s)

  unfoldable pub get_context : ℕ → Action W Context
  get_context a s = found s (s.contexts a)

  unfoldable pub set_context : ℕ → Context → Action W (Unit {0})
  set_context a c s = some (tt, record s { contexts = put s.contexts a (some c) })

  unfoldable pub modify_context : ℕ → (Context → Context) → Action W (Unit {0})
  unfolding get_context set_context
  modify_context a f = do c ← get_context a; set_context a (f c)

  -- A write to the table.
  unfoldable pub set_entry : ℕ → Option ℕ → Action W (Unit {0})
  set_entry pin v s =
      if ltb pin gpio_count
      then some (tt, record s { ctx_by_gpio = put s.ctx_by_gpio pin v })
      else none
