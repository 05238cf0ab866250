-- ===== src/Cyphal/Slots.antt =====
-- Lemmas on the table of subscriptions: it is a map from ports to objects.
use leos_sdk.Prelude.{
  ℕ, zero, if◌then◌else◌, if_cases, ◌==◌, ==_iff, ◌≡◌, ◌≢◌, refl, sym, ap, ◌∙◌, arith, Option, none,
  some, [], ◌∷◌,
}
use mathlib.Core.Path.{subst}
use mathlib.Core.Option.{some-injective}
use leos_sdk.Cyphal.Table.{Table}

-- The first object of a port.
unfoldable pub find : (ℕ → ℕ) → ℕ → Table → Option ℕ
find ports port [] = none
find ports port (none ∷ t) = find ports port t
find ports port (some a ∷ t) =
    let rest = find ports port t in if ports a == port then some a else rest

-- Every object of the table has the property.
abbrev pub AllObjects : (ℕ → Type 0) → Table → Type 0
AllObjects P [] = zero ≡ zero
AllObjects P (none ∷ t) = AllObjects P t
AllObjects P (some a ∷ t) = P a × AllObjects P t

-- No two entries have the same port.
abbrev pub OnePerPort : (ℕ → ℕ) → Table → Type 0
OnePerPort ports [] = zero ≡ zero
OnePerPort ports (none ∷ t) = OnePerPort ports t
OnePerPort ports (some a ∷ t) = (find ports (ports a) t ≡ none) × OnePerPort ports t

pub AllObjects-map :
    {P Q : ℕ → Type 0} (t : Table) → ((a : ℕ) → P a → Q a) → AllObjects P t → AllObjects Q t
AllObjects-map [] f all = refl
AllObjects-map (none ∷ t) f all = AllObjects-map t f all
AllObjects-map (some a ∷ t) f (p, all) = (f a p, AllObjects-map t f all)

-- The map depends on the ports of the table's objects only.
pub find-ports :
    (f g : ℕ → ℕ) (port : ℕ) (t : Table)
    → AllObjects (λ a. f a ≡ g a) t
    → find f port t ≡ find g port t
unfolding find
find-ports f g port [] all = refl
find-ports f g port (none ∷ t) all = find-ports f g port t all
find-ports f g port (some a ∷ t) (e, all) = rw (e, find-ports f g port t all) refl

pub OnePerPort-ports :
    (f g : ℕ → ℕ) (t : Table) → AllObjects (λ a. f a ≡ g a) t → OnePerPort f t → OnePerPort g t
OnePerPort-ports f g [] all one = refl
OnePerPort-ports f g (none ∷ t) all one = OnePerPort-ports f g t all one
OnePerPort-ports f g (some a ∷ t) (e, all) (free, one) = (
  ap (λ p. find g p t) (sym e) ∙ sym (find-ports f g (f a) t all) ∙ free,
  OnePerPort-ports f g t all one,
)

-- What is found has the port and the property of the table's objects.
pub find-AllObjects :
    (P : ℕ → Type 0) (f : ℕ → ℕ) (port : ℕ) (t : Table) (a : ℕ)
    → AllObjects P t
    → find f port t ≡ some a
    → P a × (f a ≡ port)
unfolding find
find-AllObjects P f port [] a all e = absurd (cc e)
find-AllObjects P f port (none ∷ t) a all e = find-AllObjects P f port t a all e
find-AllObjects P f port (some b ∷ t) a (p, all) e =
    if_cases (λ o. o ≡ some a → P a × (f a ≡ port)) (f b == port)
      (λ same e.
        subst (λ c. P c × (f c ≡ port)) (some-injective _ _ e) (p, (==_iff (f b) port).0 same))
      (λ _ e. find-AllObjects P f port t a all e) e

-- Where a port has no object, no object has the port.
pub find-none :
    (P : ℕ → Type 0) (f : ℕ → ℕ) (port : ℕ) (t : Table)
    → AllObjects P t
    → find f port t ≡ none
    → AllObjects (λ b. P b × (f b ≢ port)) t
unfolding find
find-none P f port [] all e = refl
find-none P f port (none ∷ t) all e = find-none P f port t all e
find-none P f port (some b ∷ t) (p, all) e =
    if_cases (λ o. o ≡ none → (P b × (f b ≢ port)) × AllObjects (λ b. P b × (f b ≢ port)) t)
      (f b == port) (λ _ e. absurd (cc e))
      (λ other e. ((p, λ same. ground arith), find-none P f port t all e)) e

pub find-same :
    (f : ℕ → ℕ) (port a : ℕ) (t : Table) → f a ≡ port → find f port (some a ∷ t) ≡ some a
unfolding find
find-same f port a t e = ground arith

pub find-other :
    (f : ℕ → ℕ) (port a : ℕ) (t : Table) → f a ≢ port → find f port (some a ∷ t) ≡ find f port t
unfolding find
find-other f port a t ne =
    if_cases (λ o. o ≡ find f port t) (f a == port)
      (λ same. absurd (ne ((==_iff (f a) port).0 same))) (λ _. refl)
