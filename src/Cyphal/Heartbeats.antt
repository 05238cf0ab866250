-- ===== src/Cyphal/Heartbeats.antt =====
-- The numbers and the times of the heartbeats.
use leos_sdk.Prelude.{
  ℕ, ◌+◌, ◌%◌, ◌*◌, ◌≤◌, false, if◌then◌else◌, if_cases, ltb, ◌==◌, ==_iff, Option, none, some,
  List, [], ◌∷◌, ◌≡◌, refl, ◌∙◌, arith,
}
use leos_sdk.Cyphal.Task.{
  Metadata, heartbeat_metadata, Services, Node, receive, push, push_heartbeat, publish_heartbeat,
  beat, task,
}

-- The heartbeats that were handed to canardTxPush, the last first: the time of each, and its
-- transfer's number.
abbrev pub Log : Type 0
Log = List (ℕ × ℕ)

-- What the node relies on: the clock, whose time is `now`, does not run backwards, a timeout lies
-- at least that far ahead, and only canardTxPush adds to the log, if the port is the heartbeat's.
pub record KeepsTime {W : Type 0} (io : Services W) (now : W → ℕ) (log : W → Log) : Type 0 where
  pub clock : (w : W) → now w ≤ (io.get_absolute_time w).0
  pub clock_now : (w : W) → (io.get_absolute_time w).0 ≤ now (io.get_absolute_time w).1
  pub clock_log : (w : W) → log (io.get_absolute_time w).1 ≡ log w
  pub timeout : (ms : ℕ) (w : W) → now w + 1000 * ms ≤ (io.make_timeout_time_ms ms w).0
  pub timeout_now : (ms : ℕ) (w : W) → now w ≤ now (io.make_timeout_time_ms ms w).1
  pub timeout_log : (ms : ℕ) (w : W) → log (io.make_timeout_time_ms ms w).1 ≡ log w
  pub poll_now : (t : ℕ) (w : W) → now w ≤ now (io.tx_poll t w).1
  pub poll_log : (t : ℕ) (w : W) → log (io.tx_poll t w).1 ≡ log w
  pub rx_log : (w : W) → log (io.rx_process w) ≡ log w
  pub push_now : (t : ℕ) (m : Metadata) (b : List ℕ) (w : W) → now w ≤ now (io.tx_push t m b w).1
  pub push_log :
      (t : ℕ) (m : Metadata) (b : List ℕ) (w : W)
      → log (io.tx_push t m b w).1
        ≡ (if m.port_id == io.heartbeat_port_id then (now w, m.transfer_id) ∷ log w else log w)

-- The last heartbeat was a second or more before the time, and its number is the one before the
-- given one, as bytes; and so on for those before it.
abbrev pub Follows : ℕ → ℕ → Log → Type 0
Follows time tid [] = Unit
Follows time tid ((t, id) ∷ rest) =
    (t + 1000000 ≤ time) × ((id + 1) % 256 ≡ tid) × Follows t id rest

Follows-later : (a b tid : ℕ) (l : Log) → a ≤ b → Follows a tid l → Follows b tid l
Follows-later a b tid [] le f = tt
Follows-later a b tid ((t, id) ∷ rest) le (spaced, numbered, f) = (omega arith, numbered, f)

module _ {W : Type 0} (log : W → Log) where
  -- The next heartbeat is due a second or more after the last, and continues its number.
  abbrev pub IsOnTime : Node W → Type 0
  IsOnTime n = Follows n.next_heartbeat n.heartbeat_tid (log n.world)

  moved-IsOnTime :
      (n : Node W) (w : W) → log w ≡ log n.world → IsOnTime n → IsOnTime (record n { world = w })
  moved-IsOnTime n w e f = rw e f

module _ {W : Type 0} (io : Services W) (now : W → ℕ) (log : W → Log)
    (keeps : KeepsTime io now log) where
  push_heartbeat-IsOnTime :
      (o : Option (List ℕ)) (n : Node W)
      → n.next_heartbeat ≤ now n.world
      → IsOnTime log n
      → let m = (push_heartbeat io o n).1 in
        Follows (now m.world + 1000000) m.heartbeat_tid (log m.world)
  unfolding push_heartbeat push
  push_heartbeat-IsOnTime none n due f =
      Follows-later n.next_heartbeat (now n.world + 1000000) n.heartbeat_tid (log n.world)
        (omega arith) f
  push_heartbeat-IsOnTime (some bytes) n due f =
      let md = heartbeat_metadata io n.heartbeat_tid in
      let w = (io.make_timeout_time_ms 500 n.world).1 in
      let later = keeps.timeout_now 500 n.world in
      let pushed = keeps.push_now (io.make_timeout_time_ms 500 n.world).0 md bytes w in
      rw
        (
          keeps.push_log (io.make_timeout_time_ms 500 n.world).0 md bytes w,
          (==_iff io.heartbeat_port_id io.heartbeat_port_id).1 refl,
          keeps.timeout_log 500 n.world,
        )
        (
          omega arith,
          refl,
          Follows-later n.next_heartbeat (now w) n.heartbeat_tid (log n.world) (omega arith) f,
        )

  beat-IsOnTime :
      (n : Node W) → n.next_heartbeat ≤ now n.world → IsOnTime log n → IsOnTime log (beat io n)
  unfolding beat publish_heartbeat
  beat-IsOnTime n due f =
      let w = (io.get_absolute_time n.world).1 in
      let first = keeps.clock n.world in
      let second = keeps.clock_now n.world in
      let o = io.serialize (record {
        uptime = io.to_ms_since_boot (io.get_absolute_time n.world).0;
        health = n.health;
        mode = n.mode;
        vendor_specific_status_code = 0;
      }) in
      let m = (push_heartbeat io o (record n { world = w })).1 in
      let ahead = keeps.timeout 1000 m.world in
      rw (keeps.timeout_log 1000 m.world) (
        Follows-later (now m.world + 1000000) (io.make_timeout_time_ms 1000 m.world).0
          m.heartbeat_tid (log m.world) (omega arith)
          (push_heartbeat-IsOnTime o (record n { world = w }) (omega arith)
            (moved-IsOnTime log n w (keeps.clock_log n.world) f)))

  -- An iteration of the node's task keeps the heartbeats a second or more apart and their numbers
  -- consecutive, as bytes.
  pub task-IsOnTime : (n : Node W) → IsOnTime log n → IsOnTime log (task io n)
  unfolding task
  task-IsOnTime n f =
      let t = io.get_absolute_time n.world in
      let p = io.tx_poll t.0 t.1 in
      let u = io.get_absolute_time p.1 in
      let m : Node W = record n { world = u.1 } in
      let same = keeps.clock_log p.1 ∙ keeps.poll_log t.0 t.1 ∙ keeps.clock_log n.world in
      let g = moved-IsOnTime log n u.1 same f in
      let current = keeps.clock_now p.1 in
      if_cases (λ (m : Node W). IsOnTime log m) (ltb n.next_heartbeat u.0)
        (λ e. beat-IsOnTime m (ground arith) g) (λ _. g)

-- What an application does with a node: the task, the receive process and pushes of its own, which
-- use other ports.
pub data Step : Type 0 where
  tasks receives : Step
  pushes : Metadata → List ℕ → Step

abbrev pub AvoidsPort : ℕ → List Step → Type 0
AvoidsPort port [] = Unit
AvoidsPort port (pushes m b ∷ steps) = ((m.port_id == port) ≡ false) × AvoidsPort port steps
AvoidsPort port (tasks ∷ steps) = AvoidsPort port steps
AvoidsPort port (receives ∷ steps) = AvoidsPort port steps

module _ {W : Type 0} (io : Services W) where
  unfoldable pub run : List Step → Node W → Node W
  run [] n = n
  run (tasks ∷ steps) n = run steps (task io n)
  run (receives ∷ steps) n = run steps (receive io n)
  run (pushes m b ∷ steps) n = run steps (push io m b n).1

module _ {W : Type 0} (io : Services W) (now : W → ℕ) (log : W → Log)
    (keeps : KeepsTime io now log) where
  push-IsOnTime :
      (m : Metadata) (b : List ℕ) (n : Node W)
      → (m.port_id == io.heartbeat_port_id) ≡ false
      → IsOnTime log n
      → IsOnTime log (push io m b n).1
  unfolding push
  push-IsOnTime m b n other f =
      let w = (io.make_timeout_time_ms 500 n.world).1 in
      rw
        (
          keeps.push_log (io.make_timeout_time_ms 500 n.world).0 m b w,
          other,
          keeps.timeout_log 500 n.world,
        )
        f

  -- Where the heartbeats so far are a second or more apart, with consecutive transfer numbers as
  -- bytes, and the next is due and numbered so, they stay so over any iterations of the task, calls
  -- of the receive process, and pushes to other ports.
  pub run-IsOnTime :
      (steps : List Step) (n : Node W)
      → AvoidsPort io.heartbeat_port_id steps
      → IsOnTime log n
      → IsOnTime log (run io steps n)
  unfolding run receive
  run-IsOnTime [] n avoids f = f
  run-IsOnTime (tasks ∷ steps) n avoids f =
      run-IsOnTime steps (task io n) avoids (task-IsOnTime io now log keeps n f)
  run-IsOnTime (receives ∷ steps) n avoids f =
      run-IsOnTime steps (receive io n) avoids
        (moved-IsOnTime log n (io.rx_process n.world) (keeps.rx_log n.world) f)
  run-IsOnTime (pushes m b ∷ steps) n (other, avoids) f =
      run-IsOnTime steps (push io m b n).1 avoids (push-IsOnTime m b n other f)
