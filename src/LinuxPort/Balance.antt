-- ===== src/LinuxPort/Balance.antt =====
-- The objects of libgpiod that are alive: what a request of one line makes is freed on every path.
use leos_sdk.Prelude.{ℕ, ◌+◌, if◌then◌else◌, ◌==◌, ◌≡◌, arith, Option, none, some}
use leos_sdk.LinuxPort.Gpiod.{Direction, Consumer, Gpiod}
use leos_sdk.LinuxPort.Lines.{
  Attempt, unmade, made, request_with, config_with, settings_with, request_line,
}

-- The types of objects that the port makes.
pub data Class : Type 0 where
  line_settings line_config request_config line_request : Class

-- An object is known by its type and its address.
abbrev pub Name : Type 0
Name = Class × ℕ

abbrev same_class : Class → Class → ℕ
same_class line_settings line_settings = 1
same_class line_config line_config = 1
same_class request_config request_config = 1
same_class line_request line_request = 1
same_class _ _ = 0

-- 1 for the object of this name, else 0; NULL is none.
abbrev pub tally : Name → Class → Option ℕ → ℕ
tally x c none = 0
tally (k, q) c (some a) = if a == q then same_class k c else 0

-- How often an object of one name was made, and how often it was freed.
abbrev pub Books : Type 0
Books = ℕ × ℕ

abbrev pub add : Name → Class → Option ℕ → Books → Books
add x c o (m, f) = (tally x c o + m, f)

abbrev pub drop : Name → Class → ℕ → Books → Books
drop x c a (m, f) = (m, tally x c (some a) + f)

-- It was made `n` times more than it was freed.
pub record Alive (b : Books) (n : ℕ) : Type 0 where
  pub made_freed : b.0 ≡ b.1 + n

-- What libgpiod documents of its objects, for the object of one name: a call that makes one and does
-- not answer NULL makes that at the address, a free or a release frees that at the address it is
-- given, and the other calls do neither.
pub record CountsObjects {W : Type 0} (lib : Gpiod W) (x : Name) (books : W → Books) : Type 0 where
  pub chip_open : (w : W) → books (lib.chip_open w).1 ≡ books w
  pub line_settings_new :
      (w : W)
      → books (lib.line_settings_new w).1
        ≡ add x line_settings (lib.line_settings_new w).0 (books w)
  pub line_settings_free :
      (a : ℕ) (w : W) → books (lib.line_settings_free a w) ≡ drop x line_settings a (books w)
  pub line_settings_set :
      (a : ℕ) (d : Direction) (w : W) → books (lib.line_settings_set a d w) ≡ books w
  pub line_config_new :
      (w : W)
      → books (lib.line_config_new w).1 ≡ add x line_config (lib.line_config_new w).0 (books w)
  pub line_config_free :
      (a : ℕ) (w : W) → books (lib.line_config_free a w) ≡ drop x line_config a (books w)
  pub add_line_settings : (a o b : ℕ) (w : W) → books (lib.add_line_settings a o b w) ≡ books w
  pub request_config_new :
      (w : W)
      → books (lib.request_config_new w).1
        ≡ add x request_config (lib.request_config_new w).0 (books w)
  pub request_config_free :
      (a : ℕ) (w : W) → books (lib.request_config_free a w) ≡ drop x request_config a (books w)
  pub set_consumer : (a : ℕ) (c : Consumer) (w : W) → books (lib.set_consumer a c w) ≡ books w
  pub request_lines :
      (chip : Option ℕ) (a b : ℕ) (w : W)
      → books (lib.request_lines chip a b w).1
        ≡ add x line_request (lib.request_lines chip a b w).0 (books w)
  pub request_release :
      (a : ℕ) (w : W) → books (lib.request_release a w) ≡ drop x line_request a (books w)

pub Alive-same : {b b' : Books} {n : ℕ} → b' ≡ b → Alive b n → Alive b' n
Alive-same e h = rw e h

pub Alive-count : {b : Books} {n n' : ℕ} → n' ≡ n → Alive b n → Alive b n'
Alive-count e h = rw e h

pub Alive-add :
    {b b' : Books} {n : ℕ} (x : Name) (c : Class) (o : Option ℕ)
    → b' ≡ add x c o b
    → Alive b n
    → Alive b' (tally x c o + n)
Alive-add x c o e h = let sum = h.made_freed in rw e (record { made_freed = omega arith })

pub Alive-drop :
    {b b' : Books} {n : ℕ} (x : Name) (c : Class) (a : ℕ)
    → b' ≡ drop x c a b
    → Alive b (tally x c (some a) + n)
    → Alive b' n
Alive-drop x c a e h = let sum = h.made_freed in rw e (record { made_freed = omega arith })

-- The request that a sequence of calls answered.
abbrev pub tally_attempt : Name → Attempt → ℕ
tally_attempt x unmade = 0
tally_attempt x (made request) = tally x line_request request

module _ {W : Type 0} (lib : Gpiod W) (x : Name) (books : W → Books)
    (counts : CountsObjects lib x books) where
  -- The configurations that are given are freed.
  request_with-Alive :
      (chip : Option ℕ) (consumer : Consumer) (cfg : ℕ) (o : Option ℕ × W) (n : ℕ)
      → Alive (books o.1) (tally x request_config o.0 + (tally x line_config (some cfg) + n))
      → let p = request_with lib chip consumer cfg o in Alive (books p.1) (tally_attempt x p.0 + n)
  unfolding request_with
  request_with-Alive chip consumer cfg (none, w) n h =
      Alive-drop {b = books w} x line_config cfg (counts.line_config_free cfg w)
        (Alive-count (omega arith) h)
  request_with-Alive chip consumer cfg (some req_cfg, w) n h =
      let w₁ = lib.set_consumer req_cfg consumer w in
      let (request, w₂) = lib.request_lines chip req_cfg cfg w₁ in
      let w₃ = lib.request_config_free req_cfg w₂ in
      let set = Alive-same (counts.set_consumer req_cfg consumer w) h in
      let requested =
        Alive-add x line_request request (counts.request_lines chip req_cfg cfg w₁) set in
      Alive-drop x line_config cfg (counts.line_config_free cfg w₃) (
        Alive-drop x request_config req_cfg (counts.request_config_free req_cfg w₂)
          (Alive-count (omega arith) requested))

  -- The settings that are given are freed.
  config_with-Alive :
      (chip : Option ℕ) (consumer : Consumer) (offset settings : ℕ) (o : Option ℕ × W) (n : ℕ)
      → Alive (books o.1) (tally x line_config o.0 + (tally x line_settings (some settings) + n))
      → let p = config_with lib chip consumer offset settings o in
        Alive (books p.1) (tally_attempt x p.0 + n)
  unfolding config_with
  config_with-Alive chip consumer offset settings (none, w) n h =
      Alive-drop {b = books w} x line_settings settings (counts.line_settings_free settings w)
        (Alive-count (omega arith) h)
  config_with-Alive chip consumer offset settings (some cfg, w) n h =
      let w₁ = lib.add_line_settings cfg offset settings w in
      let w₂ = lib.line_settings_free settings w₁ in
      let added = Alive-same (counts.add_line_settings cfg offset settings w) h in
      let freed = Alive-drop x line_settings settings (counts.line_settings_free settings w₁) (
        Alive-count
          {n' = tally x line_settings (some settings) + (tally x line_config (some cfg) + n)}
          (omega arith) added) in
      request_with-Alive chip consumer cfg (lib.request_config_new w₂) n (
        Alive-add x request_config (lib.request_config_new w₂).0 (counts.request_config_new w₂)
          freed)

  settings_with-Alive :
      (chip : Option ℕ) (direction : Direction) (consumer : Consumer) (offset : ℕ)
      (o : Option ℕ × W) (n : ℕ)
      → Alive (books o.1) (tally x line_settings o.0 + n)
      → let p = settings_with lib chip direction consumer offset o in
        Alive (books p.1) (tally_attempt x p.0 + n)
  unfolding settings_with
  settings_with-Alive chip direction consumer offset (none, w) n h = h
  settings_with-Alive chip direction consumer offset (some settings, w) n h =
      let w₁ = lib.line_settings_set settings direction w in
      config_with-Alive chip consumer offset settings (lib.line_config_new w₁) n (
        Alive-add x line_config (lib.line_config_new w₁).0 (counts.line_config_new w₁)
          (Alive-same (counts.line_settings_set settings direction w) h))

  -- A request of one line, on every path, leaves of the object `x` as many as before, and one more
  -- where it is the request that was answered.
  pub request_line-Alive :
      (chip : Option ℕ) (direction : Direction) (consumer : Consumer) (offset : ℕ) (w : W) (n : ℕ)
      → Alive (books w) n
      → let p = request_line lib chip direction consumer offset w in
        Alive (books p.1) (tally_attempt x p.0 + n)
  unfolding request_line
  request_line-Alive chip direction consumer offset w n h =
      settings_with-Alive chip direction consumer offset (lib.line_settings_new w) n
        (Alive-add x line_settings (lib.line_settings_new w).0 (counts.line_settings_new w) h)
