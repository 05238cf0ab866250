-- ===== src/LinuxPort/Release.antt =====
-- The release of a radio's lines, and its initialisation followed by its release.
use leos_sdk.Prelude.{ℕ, ◌+◌, ◌-◌, false, Option, none, some, ◌≡◌, refl, ap, arith}
use leos_sdk.Sx126x.Types.{Radio}
use leos_sdk.Sx126x.Context.{Context}
use leos_sdk.LinuxPort.Gpiod.{Gpiod, State}
use leos_sdk.LinuxPort.Lines.{gpio_of, set_gpio, gpio_init_ctx, release, gpio_deinit_ctx}
use leos_sdk.LinuxPort.Balance.{
  line_request, Name, Books, Alive, Alive-count, Alive-drop, CountsObjects,
}
use leos_sdk.LinuxPort.Ownership.{
  count, count_lines, held, IsCounted, IsAccounted, IsReleased, Accounts, unchanged, replaced,
  set_gpio-IsCounted, set_gpio-gpio_of, count_lines-held,
}
use leos_sdk.LinuxPort.Initialisation.{gpio_init_ctx-Accounts}

-- A radio that holds no request for NSS loses none.
Accounts-nothing :
    {W : Type 0} (books : W → Name → Books) (k : Name → ℕ) (radio : Radio) (s t : State W)
    → (gpio_of radio s).nss_req ≡ none
    → Accounts books k radio s t
    → IsAccounted books k t
Accounts-nothing books k radio s t none_held (unchanged _ acc) = acc
Accounts-nothing books k radio s t none_held (replaced acc) =
    λ x. let no_nss = ap (count x) none_held in Alive-count (omega arith) (acc x)

module _ {W : Type 0} (lib : Gpiod W) (x : Name) (books : W → Books)
    (counts : CountsObjects lib x books) where
  release-Alive :
      (request : Option ℕ) (w : W) (l : ℕ)
      → Alive (books w) (count x request + l)
      → Alive (books (release lib request w)) l
  unfolding release
  release-Alive none w l alive = Alive-count (omega arith) alive
  release-Alive (some q) w l alive = Alive-drop x line_request q (counts.request_release q w) alive

  deinit-IsCounted :
      (k : ℕ) (radio : Radio) (s : State W)
      → IsCounted x books k s
      → let g = gpio_of radio s in
        let w = release lib g.nss_req (release lib g.busy_req s.world) in
        IsCounted x books k (
          set_gpio radio
            (record g { busy_req = none; nss_req = none; requested = false })
            (record s { world = w }))
  deinit-IsCounted k radio s acc =
      let g = gpio_of radio s in
      let w = release lib g.busy_req s.world in
      let m = held x s + k - count_lines x g in
      let enough = count_lines-held x radio s in
      set_gpio-IsCounted x books k m radio _ s (release lib g.nss_req w)
        (release-Alive g.nss_req w m (
          release-Alive g.busy_req s.world (count x g.nss_req + m) (Alive-count (omega arith) acc)))
        (omega arith)

module _ {W : Type 0} (lib : Gpiod W) (books : W → Name → Books)
    (counts : (x : Name) → CountsObjects lib x (λ w. books w x)) where
  -- The release of a radio's lines, from any state, answers 0, releases every request that the
  -- radio holds and loses none, and the radio is as it was before an initialisation.
  pub gpio_deinit_ctx-IsReleased :
      (k : Name → ℕ) (ctx : Context) (s : State W)
      → IsAccounted books k s
      → let p = gpio_deinit_ctx lib (some ctx) s in
        (p.0 ≡ 0) × (IsReleased ctx.radio p.1 × IsAccounted books k p.1)
  unfolding gpio_deinit_ctx
  gpio_deinit_ctx-IsReleased k ctx s acc =
      let r = ctx.radio in
      let g = gpio_of r s in
      let w = release lib g.nss_req (release lib g.busy_req s.world) in
      let e =
        set_gpio-gpio_of r (record g { busy_req = none; nss_req = none; requested = false })
          (record s { world = w }) in
      (
        refl,
        (
          record {
            nss_none = ap (λ g. g.nss_req) e;
            busy_none = ap (λ g. g.busy_req) e;
            not_requested = ap (λ g. g.requested) e;
          },
          λ x. deinit-IsCounted lib x (λ w. books w x) (counts x) (k x) r s (acc x),
        ),
      )

  -- From a radio that holds nothing, where each object is alive as often as fields hold it and `k`
  -- times for others: the initialisation of the radio's lines, whatever it answers, and then their
  -- release leave the radio uninitialised and without a request, and each object, at its own type
  -- and address, is again alive as often as fields hold it and `k` times for others.
  pub init-deinit_IsReleased :
      (k : Name → ℕ) (ctx : Context) (s : State W)
      → IsReleased ctx.radio s
      → IsAccounted books k s
      → let t = (gpio_deinit_ctx lib (some ctx) (gpio_init_ctx lib (some ctx) s).1).1 in
        IsReleased ctx.radio t × IsAccounted books k t
  init-deinit_IsReleased k ctx s free acc =
      let t = (gpio_init_ctx lib (some ctx) s).1 in
      (gpio_deinit_ctx-IsReleased k ctx t (
        Accounts-nothing books k ctx.radio s t free.nss_none
          (gpio_init_ctx-Accounts lib books counts k ctx s (λ _. free.busy_none) acc))).1
