-- ===== src/Cyphal/Laws.antt =====
-- What the node relies on in libcanard and the heap, as their documentation has it.
use leos_sdk.Prelude.{ℕ, zero, suc, ◌≡◌, Option, none, some}
use leos_sdk.Prelude.Int.{ℤ, pos, negsuc}
use leos_sdk.Cyphal.Node.{Kind, Canard}

-- The two observations: the object that is registered for a kind and a port, and whether an
-- object is allocated.
pub record View (W : Type 0) : Type 1 where
  pub registered : W → Kind → ℕ → Option ℕ
  pub IsLive : W → ℕ → Type 0

module _ {W : Type 0} (canard : Canard W) (view : View W) where
  -- An allocated object other than the excepted ones stays so, with its port.
  pub record Preserves (except : ℕ → Type 0) (w w' : W) : Type 0 where
    pub live : (b : ℕ) → view.IsLive w b → ¬ except b → view.IsLive w' b
    pub port : (b : ℕ) → view.IsLive w b → ¬ except b → canard.port_of w b ≡ canard.port_of w' b

  -- The registry is as before, but where it is excepted.
  abbrev pub SameRegistry : (Kind → ℕ → Type 0) → W → W → Type 0
  SameRegistry except w w' =
      (k : Kind) (p : ℕ) → ¬ except k p → view.registered w' k p ≡ view.registered w k p

  -- A new object was not allocated before.
  pub record Allocates (w : W) (o : Option ℕ) (w' : W) : Type 0 where
    pub kept : Preserves (λ b. ⊥) w w'
    pub registry : SameRegistry (λ k p. ⊥) w w'
    pub fresh : (a : ℕ) → o ≡ some a → ¬ view.IsLive w a
    pub allocated : (a : ℕ) → o ≡ some a → view.IsLive w' a

  -- One object is released, and the registry is not looked at.
  pub record Frees (a : ℕ) (w w' : W) : Type 0 where
    pub kept : Preserves (λ b. b ≡ a) w w'
    pub registry : SameRegistry (λ k p. ⊥) w w'
    pub freed : ¬ view.IsLive w' a

  -- The object `a` is registered for the kind and the port, which is written to it.
  pub record Registers (kind : Kind) (p a : ℕ) (w w' : W) : Type 0 where
    pub kept : Preserves (λ b. b ≡ a) w w'
    pub registry : SameRegistry (λ k q. (k ≡ kind) × (q ≡ p)) w w'
    pub live : view.IsLive w' a
    pub port : canard.port_of w' a ≡ p
    pub at_key : view.registered w' kind p ≡ some a

  -- canardRxSubscribe: negative for an error, 0 where it replaced a registration, 1 where there
  -- was none.
  pub data Subscribes (kind : Kind) (p a : ℕ) (w : W) : ℤ → W → Type 0 where
    refused :
        {n : ℕ} {w' : W}
        → Preserves (λ b. b ≡ a) w w'
        → SameRegistry (λ k q. ⊥) w w'
        → Subscribes kind p a w (negsuc n) w'
    replaced :
        {w' : W} {b : ℕ}
        → view.registered w kind p ≡ some b
        → Registers kind p a w w'
        → Subscribes kind p a w (pos zero) w'
    created :
        {n : ℕ} {w' : W}
        → view.registered w kind p ≡ none
        → Registers kind p a w w'
        → Subscribes kind p a w (pos (suc n)) w'

  -- canardRxUnsubscribe: negative for an error, 0 where nothing was registered, else 1.
  pub data Unsubscribes (kind : Kind) (p : ℕ) (w : W) : ℤ → W → Type 0 where
    rejected :
        {n : ℕ} {w' : W}
        → Preserves (λ b. ⊥) w w'
        → SameRegistry (λ k q. ⊥) w w'
        → Unsubscribes kind p w (negsuc n) w'
    unknown :
        {w' : W}
        → view.registered w kind p ≡ none
        → Preserves (λ b. ⊥) w w'
        → SameRegistry (λ k q. ⊥) w w'
        → Unsubscribes kind p w (pos zero) w'
    removed :
        {n : ℕ} {w' : W} {b : ℕ}
        → view.registered w kind p ≡ some b
        → Preserves (λ b. ⊥) w w'
        → SameRegistry (λ k q. (k ≡ kind) × (q ≡ p)) w w'
        → view.registered w' kind p ≡ none
        → Unsubscribes kind p w (pos (suc n)) w'

  pub record Lawful : Type 0 where
    pub allocates : (w : W) → Allocates w (canard.allocate w).0 (canard.allocate w).1
    pub frees : (a : ℕ) (w : W) → view.IsLive w a → Frees a w (canard.deallocate a w)
    pub subscribes :
        (kind : Kind) (p extent a : ℕ) (w : W)
        → view.IsLive w a
        → Subscribes kind p a w
            (canard.rx_subscribe kind p extent a w).0
            (canard.rx_subscribe kind p extent a w).1
    pub unsubscribes :
        (kind : Kind) (p : ℕ) (w : W)
        → Unsubscribes kind p w
            (canard.rx_unsubscribe kind p w).0
            (canard.rx_unsubscribe kind p w).1
