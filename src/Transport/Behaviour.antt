-- ===== src/Transport/Behaviour.antt =====
-- What the receive loop relies on in the controller's library, libcanard and the callbacks.
use leos_sdk.Prelude.{
  ℕ, ◌+◌, ◌<◌, ◌≤◌, true, false, if◌then◌else◌, ◌==◌, Option, none, some, List, ◌≡◌, refl,
}
use leos_sdk.Prelude.Int.{ℤ}
use leos_sdk.Transport.Receive.{Transfer, Receiver, is_one}

-- The buffers that a result of canardRxAccept and the address of the payload hand over.
abbrev pub handed_over : ℤ → Option ℕ → ℕ
handed_over result none = 0
handed_over result (some _) = if is_one result then 1 else 0

abbrev pub returned : Option ℕ → ℕ
returned none = 0
returned (some _) = 1

pub handed_over-one :
    (result : ℤ) (p : Option ℕ) → is_one result ≡ true → handed_over result p ≡ returned p
handed_over-one result none e = refl
handed_over-one result (some _) e = rw e refl

pub handed_over-other :
    (result : ℤ) (p : Option ℕ) → is_one result ≡ false → handed_over result p ≡ 0
handed_over-other result none e = refl
handed_over-other result (some _) e = rw e refl

-- `pending` counts the frames that are in the FIFO or arrive before the loop ends, and `owned` the
-- payload buffers that libcanard handed over and that are not released. Only a successful read
-- takes a frame, only canardRxAccept with result 1 hands over a buffer, a callback does not release
-- it, and no other result of canardRxAccept is stored as 1.
pub record Behaves {W : Type 0} (io : Receiver W) (pending owned : W → ℕ) : Type 0 where
  pub status_pending : (w : W) → pending (io.fifo_status w).2 ≤ pending w
  pub status_owned : (w : W) → owned (io.fifo_status w).2 ≡ owned w
  pub receive_takes :
      (w : W)
      → ((io.receive_message w).0 == 0) ≡ true
      → pending (io.receive_message w).2 < pending w
  pub receive_pending : (w : W) → pending (io.receive_message w).2 ≤ pending w
  pub receive_owned : (w : W) → owned (io.receive_message w).2 ≡ owned w
  pub accept_pending :
      (t id : ℕ) (bytes : List ℕ) (size : ℕ) (w : W)
      → pending (io.rx_accept t id bytes size w).2 ≤ pending w
  pub accept_owned :
      (t id : ℕ) (bytes : List ℕ) (size : ℕ) (w : W)
      → let (result, transfer, w') = io.rx_accept t id bytes size w in
        owned w' ≡ handed_over result transfer.payload + owned w
  pub stored : (result : ℤ) → is_one (io.stored result) ≡ is_one result
  pub deallocate_pending : (p : Option ℕ) (w : W) → pending (io.deallocate p w) ≤ pending w
  pub deallocate_owned :
      (p : Option ℕ) (w : W) (n : ℕ) → owned w ≡ returned p + n → owned (io.deallocate p w) ≡ n
  pub callback_pending :
      (c : ℕ × ℕ) (t : Transfer) (w : W) → pending (io.run_callback c t w) ≤ pending w
  pub callback_owned : (c : ℕ × ℕ) (t : Transfer) (w : W) → owned (io.run_callback c t w) ≡ owned w
