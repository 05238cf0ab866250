-- ===== src/Transport/Draining.antt =====
-- The end of the receive loop, and the release of what libcanard hands over.
use leos_sdk.Prelude.{
  ℕ, zero, suc, ◌+◌, ◌%◌, ◌^◌, ◌<◌, ◌≤◌, true, if_cases, ◌==◌, Option, none, some, sym, ◌≡◌, refl,
  ap, ◌∙◌, arith,
}
use leos_sdk.Prelude.Int.{ℤ, is_negative}
use leos_sdk.Cyphal.Node.{dispatch}
use leos_sdk.Transport.Behaviour.{
  returned, handed_over, handed_over-one, handed_over-other, Behaves,
}
use leos_sdk.Transport.Receive.{
  Transfer, Receiver, is_one, Progress, stopped, more, again, call_back, deliver, accepted,
  received, continue, drain, drain_if, rx_process,
}

module _ {W : Type 0} (io : Receiver W) (pending owned : W → ℕ) where
  -- After a turn from `count` and `w`: nothing more is owned, and the frames that were counted are
  -- gone; a turn after which the loop goes on has taken a frame.
  data Turned (count : ℕ) (w : W) : Progress W → Type 0 where
    ended :
        (c : ℕ) (v : W)
        → owned v ≡ owned w
        → c + pending v ≤ count + pending w
        → Turned count w (stopped c v)
    goes_on :
        (c : ℕ) (v : W)
        → owned v ≡ owned w
        → c + pending v ≤ count + pending w
        → pending v < pending w
        → Turned count w (more c v)

  -- The loop ends, with nothing more owned, and counts no frame that was not there.
  pub data Drained (count : ℕ) (w : W) : Option (ℕ × W) → Type 0 where
    drained :
        (c : ℕ) (v : W)
        → owned v ≡ owned w
        → c + pending v ≤ count + pending w
        → Drained count w (some (c, v))

  Drained-from :
      (count : ℕ) (w : W) (c : ℕ) (v : W) (o : Option (ℕ × W))
      → owned v ≡ owned w
      → c + pending v ≤ count + pending w
      → Drained c v o
      → Drained count w o
  Drained-from count w c v none same sum impossible = elim impossible [ ]
  Drained-from count w c v (some (c', u)) same sum (drained _ _ same' sum') =
      drained c' u (same' ∙ same) (omega arith)

  module _ (behaves : Behaves io pending owned) where
    again-Turned :
        (count c : ℕ) (w v : W)
        → owned v ≡ owned w
        → c + pending v ≤ count + pending w
        → pending v < pending w
        → Turned count w (again io c (io.fifo_status v))
    again-Turned count c w v same sum less =
        let p = behaves.status_pending v in
        let o = behaves.status_owned v ∙ same in
        let u = (io.fifo_status v).2 in
        if_cases (λ (p : Progress W). Turned count w p) ((io.fifo_status v).0 == 0)
          (λ _.
            if_cases (λ (p : Progress W). Turned count w p) (io.fifo_status v).1
              (λ _. goes_on c u o (omega arith) (omega arith)) (λ _. ended c u o (omega arith)))
          (λ _. ended c u o (omega arith))

    deliver-owned :
        (transfer : Transfer) (w : W) (n : ℕ)
        → owned w ≡ returned transfer.payload + n
        → owned (deliver io transfer w) ≡ n
    unfolding deliver
    deliver-owned transfer w n e =
        behaves.deallocate_owned transfer.payload _ n
          (call_back-owned (dispatch (io.handlers w) true transfer.subscription) ∙ e)
      where
        call_back-owned : (o : Option (ℕ × ℕ)) → owned (call_back io o transfer w) ≡ owned w
        call_back-owned none = refl
        call_back-owned (some c) = behaves.callback_owned c transfer w

    deliver-pending : (transfer : Transfer) (w : W) → pending (deliver io transfer w) ≤ pending w
    unfolding deliver
    deliver-pending transfer w =
        let first = call_back-pending (dispatch (io.handlers w) true transfer.subscription) in
        let second =
          behaves.deallocate_pending transfer.payload
            (call_back io (dispatch (io.handlers w) true transfer.subscription) transfer w) in
        omega arith
      where
        call_back-pending : (o : Option (ℕ × ℕ)) → pending (call_back io o transfer w) ≤ pending w
        call_back-pending none = omega arith
        call_back-pending (some c) = behaves.callback_pending c transfer w

    -- After a frame was taken and counted.
    accepted-Turned :
        (count c : ℕ) (w : W) (result : ℤ) (transfer : Transfer) (v : W)
        → owned v ≡ handed_over result transfer.payload + owned w
        → c + pending v ≤ count + pending w
        → pending v < pending w
        → Turned count w (accepted io c (result, transfer, v))
    unfolding accepted
    accepted-Turned count c w result transfer v same sum less =
        if_cases (λ (p : Progress W). Turned count w p) (is_one (io.stored result))
          (λ one.
            let kept = deliver-pending transfer v in
            again-Turned count c w (deliver io transfer v)
              (deliver-owned transfer v (owned w) (
                same
                ∙ ap (λ n. n + owned w)
                    (handed_over-one result transfer.payload (sym (behaves.stored result) ∙ one))))
              (omega arith) (omega arith))
          (λ not_one.
            let nothing =
              handed_over-other result transfer.payload (sym (behaves.stored result) ∙ not_one) in
            if_cases (λ (p : Progress W). Turned count w p) (is_negative (io.stored result))
              (λ _. ended c v (omega arith) sum)
              (λ _. again-Turned count c w v (omega arith) sum less))

    received-Turned :
        (count : ℕ) (w : W)
        → count + pending w < 2 ^ 32
        → Turned count w (received io count (io.receive_message w))
    unfolding received
    received-Turned count w small =
        let (result, m, v) = io.receive_message w in
        if_cases (λ (p : Progress W). Turned count w p) ((io.receive_message w).0 == 0)
          (λ ok.
            let taken = behaves.receive_takes w ok in
            let a = io.rx_accept m.timestamp_us m.id m.payload_data (io.dlc_to_byte m.dlc) v in
            let kept =
              behaves.accept_pending m.timestamp_us m.id m.payload_data (io.dlc_to_byte m.dlc) v in
            let given =
              behaves.accept_owned m.timestamp_us m.id m.payload_data (io.dlc_to_byte m.dlc) v in
            let same = behaves.receive_owned w in
            accepted-Turned count ((count + 1) % 2 ^ 32) w a.0 a.1 a.2 (omega arith) (omega arith)
              (omega arith))
          (λ _.
            let kept = behaves.receive_pending w in
            ended count v (behaves.receive_owned w) (omega arith))

    continue-Drained :
        (count : ℕ) (w : W) (p : Progress W) (rest : ℕ → W → Option (ℕ × W))
        → Turned count w p
        → ((c : ℕ) (v : W)
            → c + pending v ≤ count + pending w
            → pending v < pending w
            → Drained c v (rest c v))
        → Drained count w (continue io p rest)
    continue-Drained count w (stopped c v) rest (ended _ _ same sum) next = drained c v same sum
    continue-Drained count w (more c v) rest (goes_on _ _ same sum less) next =
        Drained-from count w c v (rest c v) same sum (next c v sum less)

    drain-Drained :
        (fuel count : ℕ) (w : W)
        → pending w < fuel
        → count + pending w < 2 ^ 32
        → Drained count w (drain io fuel count w)
    unfolding drain
    drain-Drained zero count w enough small = absurd (omega arith)
    drain-Drained (suc fuel) count w enough small =
        continue-Drained count w (received io count (io.receive_message w))
          (λ c v. drain io fuel c v) (received-Turned count w small)
          (λ c v sum less. drain-Drained fuel c v (omega arith) (omega arith))

    -- With fuel for each frame that can come, of which there are fewer than 2 ^ 32, the receive
    -- loop ends; it has released every payload that libcanard handed over, and the frames that it
    -- answers, with those that are left, are no more than there were.
    pub rx_process-Drained :
        (fuel : ℕ) (w : W)
        → pending w < fuel
        → pending w < 2 ^ 32
        → Drained 0 w (rx_process io fuel w)
    unfolding rx_process drain_if
    rx_process-Drained fuel w enough small =
        let (result, not_empty, v) = io.fifo_status w in
        let kept = behaves.status_pending w in
        let same = behaves.status_owned w in
        let nothing : Drained 0 w (some (0, v)) = drained 0 v same (omega arith) in
        if_cases (λ (o : Option (ℕ × W)). Drained 0 w o) (result == 0)
          (λ _.
            if_cases (λ (o : Option (ℕ × W)). Drained 0 w o) not_empty
              (λ _.
                Drained-from 0 w 0 v (drain io fuel 0 v) same (omega arith)
                  (drain-Drained fuel 0 v (omega arith) (omega arith)))
              (λ _. nothing))
          (λ _. nothing)
