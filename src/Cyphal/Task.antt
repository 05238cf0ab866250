-- ===== src/Cyphal/Task.antt =====
-- The start of the Cyphal node, its task and its heartbeat (src/leos_cyphal/node/cyphal.c and
-- memory.c).
use leos_sdk.Prelude.{
  ℕ, ◌+◌, ◌%◌, ◌*◌, Bool, false, if◌then◌else◌, ltb, Option, none, some, List, replicate,
}
use leos_sdk.Prelude.Int.{ℤ, pos, negsuc, is_negative}
use leos_sdk.Cyphal.Table.{Table}
use leos_sdk.Cyphal.Node.{Kind, message}

-- uavcan_node_Heartbeat_1_0, with the values of its health and mode.
pub record Heartbeat : Type 0 where
  pub uptime : ℕ
  pub health : ℕ
  pub mode : ℕ
  pub vendor_specific_status_code : ℕ

-- `struct CanardTransferMetadata`; `none` is CANARD_NODE_ID_UNSET.
pub record Metadata : Type 0 where
  pub priority : ℕ
  pub kind : Kind
  pub port_id : ℕ
  pub remote_node_id : Option ℕ
  pub transfer_id : ℕ

-- libcanard with the transport that it sends through, o1heap, the generated code of the heartbeat,
-- and the clock, over a world that holds them and `node->can`, `node->txq` and `node->transport`.
-- Times are in microseconds.
pub record Services (W : Type 0) : Type 0 where
  -- o1heapInit on the arena of 64 KiB: whether it is not NULL.
  pub heap_init : ℕ → W → Bool × W
  -- canardInit with the heap, and then the node's number.
  pub canard_init : ℕ → W → W
  -- canardTxInit with a capacity and the MTU of CAN FD.
  pub tx_init : ℕ → W → W
  -- canardTxPoll at a time, with tx_callback.
  pub tx_poll : ℕ → W → ℤ × W
  -- canardTxPush with a deadline.
  pub tx_push : ℕ → Metadata → List ℕ → W → ℤ × W
  -- The transport's rx_process.
  pub rx_process : W → W
  pub get_absolute_time : W → ℕ × W
  pub make_timeout_time_ms : ℕ → W → ℕ × W
  pub to_ms_since_boot : ℕ → ℕ
  -- uavcan_node_Heartbeat_1_0_serialize_ into a buffer that is large enough.
  pub serialize : Heartbeat → Option (List ℕ)
  pub heartbeat_port_id : ℕ
  pub priority_nominal : ℕ
  pub health_nominal : ℕ
  pub mode_initialization : ℕ

pub record Node (W : Type 0) : Type 0 where
  pub health : ℕ
  pub mode : ℕ
  pub rx_pending : Bool
  pub next_heartbeat : ℕ
  pub heartbeat_tid : ℕ
  pub subscriptions : Table
  pub world : W

abbrev pub heartbeat_interval_ms : ℕ
heartbeat_interval_ms = 1000

abbrev pub max_subscriptions : ℕ
max_subscriptions = 25

abbrev pub serialization_error : ℤ
serialization_error = negsuc 2

abbrev pub tx_error : ℤ
tx_error = negsuc 3

module _ {W : Type 0} (io : Services W) where
  unfoldable pub canard_memory_init : W → Bool × W
  canard_memory_init w = io.heap_init (64 * 1024) w

  -- The result of canard_memory_init is not read.
  unfoldable pub init : ℕ → W → ℤ × Node W
  unfolding canard_memory_init
  init node_id w = (
    pos 0,
    record {
      health = io.health_nominal;
      mode = io.mode_initialization;
      rx_pending = false;
      next_heartbeat = 0;
      heartbeat_tid = 0;
      subscriptions = replicate max_subscriptions none;
      world = io.tx_init 32 (io.canard_init node_id (canard_memory_init w).1);
    },
  )

  unfoldable pub receive : Node W → Node W
  receive n = record n { world = io.rx_process n.world }

  unfoldable pub rx_process : Option (Node W) → Option (Node W)
  unfolding receive
  rx_process none = none
  rx_process (some n) = some (receive n)

  unfoldable pub push : Metadata → List ℕ → Node W → ℤ × Node W
  push meta payload n =
      let (deadline, w) = io.make_timeout_time_ms 500 n.world in
      let (r, w') = io.tx_push deadline meta payload w in
      (if is_negative r then tx_error else pos 0, record n { world = w' })

  abbrev pub heartbeat_metadata : ℕ → Metadata
  heartbeat_metadata tid = record {
    priority = io.priority_nominal;
    kind = message;
    port_id = io.heartbeat_port_id;
    remote_node_id = none;
    transfer_id = tid;
  }

  -- What follows the serialization. The transfer's number counts on before the push.
  unfoldable pub push_heartbeat : Option (List ℕ) → Node W → ℤ × Node W
  unfolding push
  push_heartbeat none n = (serialization_error, n)
  push_heartbeat (some bytes) n =
      push (heartbeat_metadata n.heartbeat_tid) bytes
        (record n { heartbeat_tid = (n.heartbeat_tid + 1) % 256 })

  unfoldable pub publish_heartbeat : Node W → ℤ × Node W
  unfolding push_heartbeat
  publish_heartbeat n =
      let (now, w) = io.get_absolute_time n.world in
      push_heartbeat
        (io.serialize (record {
          uptime = io.to_ms_since_boot now;
          health = n.health;
          mode = n.mode;
          vendor_specific_status_code = 0;
        }))
        (record n { world = w })

  -- The heartbeat, and the time of the next.
  unfoldable pub beat : Node W → Node W
  unfolding publish_heartbeat
  beat n =
      let (_, n') = publish_heartbeat n in
      let (next, w) = io.make_timeout_time_ms heartbeat_interval_ms n'.world in
      record n' { next_heartbeat = next; world = w }

  unfoldable pub task : Node W → Node W
  unfolding beat
  task n =
      let (now, w) = io.get_absolute_time n.world in
      let (poll, w) = io.tx_poll now w in
      let (now', w) = io.get_absolute_time w in
      let n' = record n { world = w } in if ltb n.next_heartbeat now' then beat n' else n'
