-- ===== src/Transport/Delivery.antt =====
-- The callbacks that the receive loop calls are those that a book has for the transfers.
use leos_sdk.Prelude.{
  ℕ, zero, suc, Bool, true, false, if_cases, ◌==◌, Option, none, some, List, [], ◌∷◌, ◌≡◌, refl,
  sym, ap, ◌∙◌,
}
use mathlib.Core.Path.{subst}
use leos_sdk.Prelude.Int.{ℤ, is_negative}
use leos_sdk.Cyphal.Node.{Handler, dispatch}
use leos_sdk.Cyphal.Calls.{Book}
use leos_sdk.Transport.Draining.{Drained}
use leos_sdk.Transport.Receive.{
  Transfer, Receiver, is_one, Progress, stopped, more, again, call_back, deliver, accepted,
  received, continue, drain, drain_if, rx_process,
}

-- The calls of callbacks for transfers of these ports, the last first.
abbrev pub called : Option (ℕ × ℕ) → List (ℕ × ℕ) → List (ℕ × ℕ)
called none log = log
called (some call) log = call ∷ log

abbrev pub calls_of : Book → List ℕ → List (ℕ × ℕ)
calls_of book [] = []
calls_of book (p ∷ ports) = called (book p) (calls_of book ports)

module _ {W : Type 0} (io : Receiver W) (registered : ℕ → Option ℕ) (ports : W → List ℕ)
    (log : W → List (ℕ × ℕ)) where
  abbrev pub SameLogs : W → W → Type 0
  SameLogs w v = (io.handlers v ≡ io.handlers w) × (ports v ≡ ports w) × (log v ≡ log w)

  -- A frame that completes a transfer of a port is given with the object registered there.
  abbrev pub Accepts : Transfer → W → W → Bool → Type 0
  Accepts transfer w v true =
      (p : ℕ) × (transfer.subscription ≡ registered p) × (ports v ≡ p ∷ ports w)
  Accepts transfer w v false = ports v ≡ ports w

  -- `ports` are the ports of the transfers so far and `log` the calls of callbacks, the last first.
  -- A callback does not subscribe or unsubscribe.
  pub record Observes : Type 0 where
    pub status : (w : W) → SameLogs w (io.fifo_status w).2
    pub receive : (w : W) → SameLogs w (io.receive_message w).2
    pub accept :
        (t id : ℕ) (bytes : List ℕ) (size : ℕ) (w : W)
        → let (r, transfer, v) = io.rx_accept t id bytes size w in
          (io.handlers v ≡ io.handlers w)
          × (log v ≡ log w)
          × Accepts transfer w v (is_one (io.stored r))
    pub deallocate : (o : Option ℕ) (w : W) → SameLogs w (io.deallocate o w)
    pub callback :
        (c : ℕ × ℕ) (transfer : Transfer) (w : W)
        → let v = io.run_callback c transfer w in
          (io.handlers v ≡ io.handlers w) × (ports v ≡ ports w) × (log v ≡ c ∷ log w)

  module _ (observes : Observes) (handlers : ℕ → Handler) (book : Book)
      (reaches : (p : ℕ) → dispatch handlers true (registered p) ≡ book p) where
    -- The node's handlers, and the calls that the book has for the transfers so far.
    abbrev pub IsSound : W → Type 0
    IsSound w = (io.handlers w ≡ handlers) × (log w ≡ calls_of book (ports w))

    SameLogs-IsSound : (w v : W) → SameLogs w v → IsSound w → IsSound v
    SameLogs-IsSound w v (h, p, l) (hw, lw) = (h ∙ hw, l ∙ lw ∙ ap (calls_of book) (sym p))

    call_back-IsSound :
        (o : Option (ℕ × ℕ)) (transfer : Transfer) (w : W)
        → io.handlers w ≡ handlers
        → called o (log w) ≡ calls_of book (ports w)
        → IsSound (call_back io o transfer w)
    call_back-IsSound none transfer w h l = (h, l)
    call_back-IsSound (some c) transfer w h l =
        let (hv, pv, lv) = observes.callback c transfer w in
        (hv ∙ h, lv ∙ l ∙ ap (calls_of book) (sym pv))

    deliver-IsSound :
        (transfer : Transfer) (p : ℕ) (w v : W)
        → IsSound w
        → io.handlers v ≡ io.handlers w
        → log v ≡ log w
        → transfer.subscription ≡ registered p
        → ports v ≡ p ∷ ports w
        → IsSound (deliver io transfer v)
    unfolding deliver
    deliver-IsSound transfer p w v (hw, lw) h l s ps =
        let o = dispatch (io.handlers v) true transfer.subscription in
        let by_book : o ≡ book p =
          ap (λ f. dispatch f true transfer.subscription) (h ∙ hw)
          ∙ ap (dispatch handlers true) s
          ∙ reaches p in
        SameLogs-IsSound _ _ (observes.deallocate transfer.payload (call_back io o transfer v)) (
          call_back-IsSound o transfer v (h ∙ hw) (
            ap (λ x. called x (log v)) by_book
            ∙ ap (called (book p)) (l ∙ lw)
            ∙ ap (calls_of book) (sym ps)))

    abbrev SoundAfter : Progress W → Type 0
    SoundAfter (stopped c v) = IsSound v
    SoundAfter (more c v) = IsSound v

    again-SoundAfter :
        (count : ℕ) (w : W) → IsSound w → SoundAfter (again io count (io.fifo_status w))
    again-SoundAfter count w sound =
        let (result, not_empty, v) = io.fifo_status w in
        let sound' = SameLogs-IsSound w v (observes.status w) sound in
        if_cases SoundAfter (result == 0)
          (λ _. if_cases SoundAfter not_empty (λ _. sound') (λ _. sound')) (λ _. sound')

    accepted-SoundAfter :
        (count : ℕ) (r : ℤ) (transfer : Transfer) (w v : W)
        → IsSound w
        → io.handlers v ≡ io.handlers w
        → log v ≡ log w
        → Accepts transfer w v (is_one (io.stored r))
        → SoundAfter (accepted io count (r, transfer, v))
    unfolding accepted
    accepted-SoundAfter count r transfer w v sound h l accepts =
        if_cases SoundAfter (is_one (io.stored r))
          (λ one.
            let (p, s, ps) = subst (Accepts transfer w v) one accepts in
            again-SoundAfter count (deliver io transfer v)
              (deliver-IsSound transfer p w v sound h l s ps))
          (λ other.
            let same = subst (Accepts transfer w v) other accepts in
            let sound' = SameLogs-IsSound w v (h, same, l) sound in
            if_cases SoundAfter (is_negative (io.stored r)) (λ _. sound')
              (λ _. again-SoundAfter count v sound'))

    received-SoundAfter :
        (count : ℕ) (w : W) → IsSound w → SoundAfter (received io count (io.receive_message w))
    unfolding received
    received-SoundAfter count w sound =
        let (result, m, v) = io.receive_message w in
        let sound' = SameLogs-IsSound w v (observes.receive w) sound in
        let (h, l, accepts) =
          observes.accept m.timestamp_us m.id m.payload_data (io.dlc_to_byte m.dlc) v in
        if_cases SoundAfter (result == 0) (λ _. accepted-SoundAfter _ _ _ v _ sound' h l accepts)
          (λ _. sound')

    abbrev pub SoundEnd : Option (ℕ × W) → Type 0
    SoundEnd none = zero ≡ zero
    SoundEnd (some (n, v)) = IsSound v

    continue-SoundEnd :
        (o : Progress W) (rest : ℕ → W → Option (ℕ × W))
        → SoundAfter o
        → ((c : ℕ) (v : W) → IsSound v → SoundEnd (rest c v))
        → SoundEnd (continue io o rest)
    continue-SoundEnd (stopped c v) rest sound next = sound
    continue-SoundEnd (more c v) rest sound next = next c v sound

    drain-SoundEnd : (fuel count : ℕ) (w : W) → IsSound w → SoundEnd (drain io fuel count w)
    unfolding drain
    drain-SoundEnd zero count w sound = refl
    drain-SoundEnd (suc fuel) count w sound =
        continue-SoundEnd _ _ (received-SoundAfter count w sound) (drain-SoundEnd fuel)

    pub rx_process-SoundEnd : (fuel : ℕ) (w : W) → IsSound w → SoundEnd (rx_process io fuel w)
    unfolding rx_process drain_if
    rx_process-SoundEnd fuel w sound =
        let (result, not_empty, v) = io.fifo_status w in
        let sound' = SameLogs-IsSound w v (observes.status w) sound in
        if_cases SoundEnd (result == 0)
          (λ _. if_cases SoundEnd not_empty (λ _. drain-SoundEnd fuel 0 v sound') (λ _. sound'))
          (λ _. sound')

    -- An end with some outcome is one after which the log is by the book.
    pub Drained-log :
        (pending owned : W → ℕ) (w : W) (o : Option (ℕ × W))
        → Drained io pending owned 0 w o
        → SoundEnd o
        → (n : ℕ) × (v : W) × (o ≡ some (n, v)) × (log v ≡ calls_of book (ports v))
    Drained-log pending owned w none impossible sound = elim impossible [ ]
    Drained-log pending owned w (some (n, v)) ended (h, l) = (n, v, refl, l)
