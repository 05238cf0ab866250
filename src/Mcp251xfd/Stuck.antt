-- ===== src/Mcp251xfd/Stuck.antt =====
-- Events that the task answers with nothing that clears them.
use leos_sdk.Prelude.{ℕ, zero, suc, true, false, ◌≡◌, refl, ap, ◌∙◌, Option, none, some, []}
use leos_sdk.Mcp251xfd.Types.{
  Context, Device, txq_interrupt, fifo1_interrupt, rx_event, Reply, Platform,
}
use leos_sdk.Mcp251xfd.State.{State, Action, pure, continue, get_context}
use leos_sdk.Mcp251xfd.Driver.{call, handle_edges}
use leos_sdk.Mcp251xfd.Task.{
  clear, service_txq, run_callback, receive, service_fifo1, service, handle_event, serve,
}

-- A call without an error or an interrupt, with the given answer, after which `P` holds.
pub record Answers {W A : Type 0} (P : W → Type 0) (r : Reply W A) (v : A) : Type 0 where
  pub no_error : r.err ≡ 0
  pub answer : r.out ≡ v
  pub no_edges : r.edges ≡ []
  pub after : P r.world

module _ {W : Type 0} where
  -- A step that ends with the given value, the same state but for the world, and `P` there.
  abbrev pub Stays : {A : Type 0} → (W → Type 0) → State W → A → Option (A × State W) → Type 0
  Stays P s v o = (w : W) × P w × (o ≡ some (v, record s { world = w }))

  Answers-call :
      {A : Type 0} (P : W → Type 0) (f : W → Reply W A) (v : A) (s : State W)
      → Answers P (f s.world) v
      → Stays P s (0, v) (call f s)
  unfolding call handle_edges
  Answers-call P f v s h =
      ((f s.world).world, h.after, rw h.no_edges (rw (h.no_error, h.answer) refl))

  Stays-bind :
      {A B : Type 0} (P : W → Type 0) (s : State W) (v : A) (v' : B) (f : A → Action W B)
      (o : Option (A × State W))
      → Stays P s v o
      → ((w : W) → P w → Stays P s v' (f v (record s { world = w })))
      → Stays P s v' (continue f o)
  Stays-bind P s v v' f o (w, h, e) k = let (w', h', e') = k w h in (w', h', ap (continue f) e ∙ e')

  Stays-none :
      {A : Type 0} (P : W → Type 0) (s : State W) (v : A) → P s.world → Stays P s v (pure v s)
  Stays-none P s v h = (s.world, h, refl)

module _ {W : Type 0} (p : Platform W) where
  -- The controller, as long as `P` holds of the world, reports the same event: of the transmit
  -- queue, whose attempts are not exhausted; or of a receive FIFO that is not empty, although its
  -- events are cleared.
  pub data Insists (P : W → Type 0) (d : Device) (rx_cb : Option ℕ) : Type 0 where
    txq :
        ((w : W) → P w → Answers P (p.get_current_interrupt_event d w) txq_interrupt)
        → ((w : W) → P w → Answers P (p.get_txq_status d w) false)
        → Insists P d rx_cb
    fifo1 :
        rx_cb ≡ none
        → ((w : W) → P w → Answers P (p.get_current_interrupt_event d w) fifo1_interrupt)
        → ((w : W) → P w → Answers P (p.get_fifo1_status d w) true)
        → ((w : W) → P w → Answers P (p.clear_fifo1_events d w) tt)
        → ((w : W) → P w → Answers P (p.clear_interrupt_events d rx_event w) tt)
        → Insists P d rx_cb

  module _ (P : W → Type 0) (a : ℕ) (d : Device) (c : Context) where
    run_callback-none :
        (o : Option ℕ) (s : State W) → o ≡ none → P s.world → Stays P s tt (run_callback p d c o s)
    unfolding run_callback
    run_callback-none o s e h = rw e (Stays-none P s tt h)

    receive-Stays :
        (s : State W)
        → s.contexts a ≡ some c
        → c.rx_cb ≡ none
        → P s.world
        → Stays P s tt (receive p a d true s)
    unfolding receive get_context
    receive-Stays s e no_cb h = rw e (run_callback-none c.rx_cb s no_cb h)

    serve-Stays_txq :
        ((w : W) → P w → Answers P (p.get_current_interrupt_event d w) txq_interrupt)
        → ((w : W) → P w → Answers P (p.get_txq_status d w) false)
        → (fuel : ℕ) (s : State W) → P s.world
        → Stays P s false (serve p fuel a d s)
    unfolding serve handle_event service service_txq
    serve-Stays_txq asks status zero s h = Stays-none P s false h
    serve-Stays_txq asks status (suc fuel) s h =
        Stays-bind P s (0, txq_interrupt) false _ _
          (Answers-call P (p.get_current_interrupt_event d) txq_interrupt s (asks s.world h))
          (λ w h.
            Stays-bind P (record s { world = w }) tt false _ _
              (Stays-bind P (record s { world = w }) (0, false) tt _ _
                (Answers-call P (p.get_txq_status d) false (record s { world = w }) (status w h))
                (λ w h. Stays-none P (record s { world = w }) tt h))
              (λ w h. serve-Stays_txq asks status fuel (record s { world = w }) h))

    service_fifo1-Stays :
        ((w : W) → P w → Answers P (p.clear_fifo1_events d w) tt)
        → ((w : W) → P w → Answers P (p.clear_interrupt_events d rx_event w) tt)
        → (s : State W) → s.contexts a ≡ some c
        → c.rx_cb ≡ none
        → P s.world
        → Stays P s tt (service_fifo1 p a d (0, true) s)
    unfolding service_fifo1 clear
    service_fifo1-Stays clears flags s e no_cb h =
        Stays-bind P s tt tt _ _ (receive-Stays s e no_cb h) (λ w h.
          Stays-bind P (record s { world = w }) (0, tt) tt _ _
            (Answers-call P (p.clear_fifo1_events d) tt (record s { world = w }) (clears w h))
            (λ w h.
              Stays-bind P (record s { world = w }) (0, tt) tt _ _
                (Answers-call P (p.clear_interrupt_events d rx_event) tt (record s { world = w })
                  (flags w h))
                (λ w h. Stays-none P (record s { world = w }) tt h)))

    serve-Stays_fifo1 :
        c.rx_cb ≡ none
        → ((w : W) → P w → Answers P (p.get_current_interrupt_event d w) fifo1_interrupt)
        → ((w : W) → P w → Answers P (p.get_fifo1_status d w) true)
        → ((w : W) → P w → Answers P (p.clear_fifo1_events d w) tt)
        → ((w : W) → P w → Answers P (p.clear_interrupt_events d rx_event w) tt)
        → (fuel : ℕ) (s : State W) → s.contexts a ≡ some c
        → P s.world
        → Stays P s false (serve p fuel a d s)
    unfolding serve handle_event service
    serve-Stays_fifo1 no_cb asks status clears flags zero s e h = Stays-none P s false h
    serve-Stays_fifo1 no_cb asks status clears flags (suc fuel) s e h =
        Stays-bind P s (0, fifo1_interrupt) false _ _
          (Answers-call P (p.get_current_interrupt_event d) fifo1_interrupt s (asks s.world h))
          (λ w h.
            Stays-bind P (record s { world = w }) tt false _ _
              (Stays-bind P (record s { world = w }) (0, true) tt _ _
                (Answers-call P (p.get_fifo1_status d) true (record s { world = w }) (status w h))
                (λ w h. service_fifo1-Stays clears flags (record s { world = w }) e no_cb h))
              (λ w h.
                serve-Stays_fifo1 no_cb asks status clears flags fuel (record s { world = w }) e h))

    -- Where the controller insists on an event of the transmit queue whose attempts are not
    -- exhausted, or of a receive FIFO that is not empty while no callback is installed: the loop
    -- of the task runs out of any fuel, and leaves everything but the world as it was.
    pub serve-Stays :
        Insists P d c.rx_cb
        → (fuel : ℕ) (s : State W) → s.contexts a ≡ some c
        → P s.world
        → Stays P s false (serve p fuel a d s)
    serve-Stays (txq asks status) fuel s e h = serve-Stays_txq asks status fuel s h
    serve-Stays (fifo1 no_cb asks status clears flags) fuel s e h =
        serve-Stays_fifo1 no_cb asks status clears flags fuel s e h
