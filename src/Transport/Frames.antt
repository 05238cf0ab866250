-- ===== src/Transport/Frames.antt =====
-- The length code of a frame, and what libcanard is told of its sending.
use leos_sdk.Prelude.{ℕ, ◌-◌, ◌*◌, ◌≤◌, ◌<◌, true, if◌then◌else◌, leb, ◌≡◌, ◌≢◌, ◌⊎◌, arith}
use leos_sdk.Prelude.Int.{ℤ, pos, is_negative}
use leos_sdk.Transport.Transmit.{bytes_to_dlc, Frame, Message, Controller, message_of, make_room}

-- The payload bytes of a CAN FD frame by its length code.
unfoldable pub dlc_bytes : ℕ → ℕ
dlc_bytes d =
    if leb d 8
    then d
    else if leb d 12
    then d * 4 - 24
    else if leb d 13
    then 32
    else if leb d 14
    then 48
    else 64

-- The code of a payload of at most 64 bytes is the smallest of the sixteen codes whose frames hold
-- the payload.
pub bytes_to_dlc-dlc_bytes :
    (n : ℕ)
    → n ≤ 64
    → (bytes_to_dlc n < 16)
      × (n ≤ dlc_bytes (bytes_to_dlc n))
      × ((d : ℕ) → d < 16 → n ≤ dlc_bytes d → bytes_to_dlc n ≤ d)
unfolding bytes_to_dlc dlc_bytes
bytes_to_dlc-dlc_bytes n h = (ground arith, ground arith, λ d l k. ground arith)

module _ {W : Type 0} (mcp : Controller W) where
  -- The controller's errors fit an int8_t once negated.
  pub record SmallErrors : Type 0 where
    pub status_error : (w : W) → (mcp.txq_status w).0 ≤ 128
    pub transmit_error : (msg : Message) (w : W) → (mcp.transmit msg w).0 ≤ 128

  -- The state in which the message is handed over: an error-free status, the queue emptied if full.
  abbrev pub ready_queue : W → W
  ready_queue w = make_room mcp (mcp.txq_status w).1 (mcp.txq_status w).2

  -- What libcanard may be told of a frame: 1 for a frame that was sent, where the status was read
  -- and the message then taken, and a negative number for a failure of one of the two.
  pub data Told (f : Frame) (w : W) : ℤ → Type 0 where
    sent :
        (mcp.txq_status w).0 ≡ 0
        → (mcp.transmit (message_of f) (ready_queue w)).0 ≡ 0
        → Told f w (pos 1)
    lost :
        {r : ℤ}
        → is_negative r ≡ true
        → (((mcp.txq_status w).0 ≢ 0) ⊎ ((mcp.transmit (message_of f) (ready_queue w)).0 ≢ 0))
        → Told f w r
