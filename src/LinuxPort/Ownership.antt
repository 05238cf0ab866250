-- ===== src/LinuxPort/Ownership.antt =====
-- Who holds the open line requests, over the initialisation and the release of a radio's lines.
use leos_sdk.Prelude.{ℕ, ◌+◌, ◌≤◌, false, Option, none, ◌≡◌, refl, ap, arith}
use leos_sdk.Sx126x.Types.{Radio}
use leos_sdk.LinuxPort.Gpiod.{Gpio, State}
use leos_sdk.LinuxPort.Lines.{gpio_of, set_gpio}
use leos_sdk.LinuxPort.Balance.{line_request, Name, tally, Books, Alive, Alive-count}

-- 1 where the field holds the request of this name.
abbrev pub count : Name → Option ℕ → ℕ
count x request = tally x line_request request

abbrev pub count_lines : Name → Gpio → ℕ
count_lines x g = count x g.nss_req + count x g.busy_req

-- The same requests, at offsets that may differ.
pub record SameRequests (g h : Gpio) : Type 0 where
  pub nss_req : h.nss_req ≡ g.nss_req
  pub busy_req : h.busy_req ≡ g.busy_req
  pub requested : h.requested ≡ g.requested

pub same_requests : {g h : Gpio} → h ≡ g → SameRequests g h
same_requests e = record {
  nss_req = ap (λ g. g.nss_req) e;
  busy_req = ap (λ g. g.busy_req) e;
  requested = ap (λ g. g.requested) e;
}

module _ {W : Type 0} where
  -- How many of the port's fields hold the request of this name.
  abbrev pub held : Name → State W → ℕ
  held x s = count x s.g_reset_req + (count_lines x s.g_sx1262_gpio + count_lines x s.g_sx1268_gpio)

  -- For the object of one name: it is alive as often as fields hold it, and `k` times for others.
  abbrev pub IsCounted : Name → (W → Books) → ℕ → State W → Type 0
  IsCounted x books k s = Alive (books s.world) (held x s + k)

  -- For every object.
  abbrev pub IsAccounted : (W → Name → Books) → (Name → ℕ) → State W → Type 0
  IsAccounted books k s = (x : Name) → IsCounted x (λ w. books w x) (k x) s

  -- Not initialised, and nothing held: what an init that answers 0 makes untrue, and a deinit true.
  pub record IsReleased (radio : Radio) (s : State W) : Type 0 where
    pub nss_none : (gpio_of radio s).nss_req ≡ none
    pub busy_none : (gpio_of radio s).busy_req ≡ none
    pub not_requested : (gpio_of radio s).requested ≡ false

  set_gpio-held :
      (x : Name) (radio : Radio) (g : Gpio) (s : State W) (w : W)
      → held x (set_gpio radio g (record s { world = w })) + count_lines x (gpio_of radio s)
        ≡ held x s + count_lines x g
  unfolding gpio_of set_gpio
  set_gpio-held x Radio.sx1262 g s w = omega arith
  set_gpio-held x Radio.sx1268 g s w = omega arith
  set_gpio-held x (Radio.other _) g s w = omega arith

  pub set_gpio-world :
      (radio : Radio) (g : Gpio) (s : State W) → (set_gpio radio g s).world ≡ s.world
  unfolding set_gpio
  set_gpio-world Radio.sx1262 g s = refl
  set_gpio-world Radio.sx1268 g s = refl
  set_gpio-world (Radio.other _) g s = refl

  pub set_gpio-gpio_of :
      (radio : Radio) (g : Gpio) (s : State W) → gpio_of radio (set_gpio radio g s) ≡ g
  unfolding gpio_of set_gpio
  set_gpio-gpio_of Radio.sx1262 g s = refl
  set_gpio-gpio_of Radio.sx1268 g s = refl
  set_gpio-gpio_of (Radio.other _) g s = refl

  pub same_lines :
      (radio : Radio) (s : State W) (w : W)
      → gpio_of radio (record s { world = w }) ≡ gpio_of radio s
  unfolding gpio_of
  same_lines Radio.sx1262 s w = refl
  same_lines Radio.sx1268 s w = refl
  same_lines (Radio.other _) s w = refl

  -- From `s`, with the objects `k` of others, to `t`: the requests of the radio stay and none is
  -- lost, or the request for NSS that `s` holds, if any, is lost: it counts as another's.
  pub data Accounts (books : W → Name → Books) (k : Name → ℕ) (radio : Radio) (s t : State W)
      : Type 0 where
    unchanged :
        SameRequests (gpio_of radio s) (gpio_of radio t)
        → IsAccounted books k t
        → Accounts books k radio s t
    replaced :
        IsAccounted books (λ x. k x + count x (gpio_of radio s).nss_req) t
        → Accounts books k radio s t

  pub count_lines-held :
      (x : Name) (radio : Radio) (s : State W) → count_lines x (gpio_of radio s) ≤ held x s
  unfolding gpio_of
  count_lines-held x Radio.sx1262 s = omega arith
  count_lines-held x Radio.sx1268 s = omega arith
  count_lines-held x (Radio.other _) s = omega arith

  pub set_gpio-IsCounted :
      (x : Name) (books : W → Books) (k m : ℕ) (radio : Radio) (g : Gpio) (s : State W) (w : W)
      → Alive (books w) m
      → m + count_lines x (gpio_of radio s) ≡ held x s + count_lines x g + k
      → IsCounted x books k (set_gpio radio g (record s { world = w }))
  set_gpio-IsCounted x books k m radio g s w alive enough =
      let changed = set_gpio-held x radio g s w in
      rw (set_gpio-world radio g (record s { world = w })) (Alive-count (omega arith) alive)
