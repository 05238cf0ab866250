-- ===== src/Cyphal/Clearing.antt =====
-- The table after clear_port.
use leos_sdk.Prelude.{
  ℕ, zero, Bool, true, false, if◌then◌else◌, if_cases, ◌==◌, ==_iff, ◌≡◌, ◌≢◌, refl, sym, ap, ◌∙◌,
  arith, Option, none, some, [], ◌∷◌,
}
use mathlib.Core.Path.{subst}
use mathlib.Core.Option.{some-injective}
use leos_sdk.Cyphal.Table.{Table, keep_entry, clear_port}
use leos_sdk.Cyphal.Slots.{find, AllObjects, OnePerPort, find-same, find-other}

-- What the search of clear_port does to the map.
pub record IsCleared (f : ℕ → ℕ) (port : ℕ) (t : Table) (a : ℕ) (t' : Table) : Type 0 where
  pub was : find f port t ≡ some a
  pub gone : find f port t' ≡ none
  pub others : (q : ℕ) → q ≢ port → find f q t' ≡ find f q t
  pub one : OnePerPort f t'

IsCleared-here :
    (f : ℕ → ℕ) (port a : ℕ) (t : Table)
    → OnePerPort f (some a ∷ t)
    → f a ≡ port
    → IsCleared f port (some a ∷ t) a (none ∷ t)
unfolding find
IsCleared-here f port a t (free, one) e = record {
  was = find-same f port a t e;
  gone = ap (λ p. find f p t) (sym e) ∙ free;
  others = λ q ne. sym (find-other f q a t (λ k. ne (sym k ∙ e)));
  one = one;
}

IsCleared-none :
    (f : ℕ → ℕ) (port a : ℕ) (t t' : Table)
    → IsCleared f port t a t'
    → IsCleared f port (none ∷ t) a (none ∷ t')
unfolding find
IsCleared-none f port a t t' c = record {
  was = c.was;
  gone = c.gone;
  others = c.others;
  one = c.one;
}

IsCleared-some :
    (f : ℕ → ℕ) (port a b : ℕ) (t t' : Table)
    → find f (f b) t ≡ none
    → f b ≢ port
    → IsCleared f port t a t'
    → IsCleared f port (some b ∷ t) a (some b ∷ t')
unfolding find
IsCleared-some f port a b t t' free ne c = record {
  was = find-other f port b t ne ∙ c.was;
  gone = find-other f port b t' ne ∙ c.gone;
  others = λ q qne. ap (λ o. if f b == q then some b else o) (c.others q qne);
  one = (c.others (f b) ne ∙ free, c.one);
}

-- What clear_port answers for a table with one object per port: the object of the port with the
-- table without it, or nothing where the port has none.
pub data Clearing (f : ℕ → ℕ) (port : ℕ) (t : Table) : Option (ℕ × Table) → Type 0 where
  absent : find f port t ≡ none → Clearing f port t none
  cleared : {a : ℕ} {t' : Table} → IsCleared f port t a t' → Clearing f port t (some (a, t'))

Clearing-none :
    (f : ℕ → ℕ) (port : ℕ) (t : Table) (o : Option (ℕ × Table))
    → Clearing f port t o
    → Clearing f port (none ∷ t) (keep_entry none o)
unfolding keep_entry find
Clearing-none f port t none (absent e) = absent e
Clearing-none f port t (some (a, t')) (cleared c) = cleared (IsCleared-none f port a t t' c)

Clearing-some :
    (f : ℕ → ℕ) (port b : ℕ) (t : Table) (o : Option (ℕ × Table))
    → find f (f b) t ≡ none
    → f b ≢ port
    → Clearing f port t o
    → Clearing f port (some b ∷ t) (keep_entry (some b) o)
unfolding keep_entry
Clearing-some f port b t none free ne (absent e) = absent (find-other f port b t ne ∙ e)
Clearing-some f port b t (some (a, t')) free ne (cleared c) =
    cleared (IsCleared-some f port a b t t' free ne c)

pub clear_port-Clearing :
    (f : ℕ → ℕ) (port : ℕ) (t : Table) → OnePerPort f t → Clearing f port t (clear_port f port t)
unfolding clear_port find
clear_port-Clearing f port [] one = absent refl
clear_port-Clearing f port (none ∷ t) one =
    Clearing-none f port t _ (clear_port-Clearing f port t one)
clear_port-Clearing f port (some b ∷ t) (free, one) =
    let rest = clear_port-Clearing f port t one in
    if_cases (Clearing f port (some b ∷ t)) (f b == port)
      (λ same. cleared (IsCleared-here f port b t (free, one) ((==_iff (f b) port).0 same)))
      (λ other. Clearing-some f port b t _ free (λ e. ground arith) rest)

pub clear_port-some :
    (f : ℕ → ℕ) (port : ℕ) (t : Table) (a : ℕ) (t' : Table)
    → OnePerPort f t
    → clear_port f port t ≡ some (a, t')
    → IsCleared f port t a t'
clear_port-some f port t a t' one e =
    elim (subst (Clearing f port t) e (clear_port-Clearing f port t one)) [ cleared c ↦ c ]

abbrev pub AllAfter : (ℕ → Type 0) → Option (ℕ × Table) → Type 0
AllAfter P none = zero ≡ zero
AllAfter P (some (a, t)) = AllObjects P t

keep_entry-AllAfter :
    (P : ℕ → Type 0) (x : Option ℕ) (o : Option (ℕ × Table))
    → ((t : Table) → AllObjects P t → AllObjects P (x ∷ t))
    → AllAfter P o
    → AllAfter P (keep_entry x o)
unfolding keep_entry
keep_entry-AllAfter P x none f all = refl
keep_entry-AllAfter P x (some (a, t)) f all = f t all

pub clear_port-AllAfter :
    (P : ℕ → Type 0) (f : ℕ → ℕ) (port : ℕ) (t : Table)
    → AllObjects P t
    → AllAfter P (clear_port f port t)
unfolding clear_port
clear_port-AllAfter P f port [] all = refl
clear_port-AllAfter P f port (none ∷ t) all =
    keep_entry-AllAfter P none (clear_port f port t) (λ t all. all)
      (clear_port-AllAfter P f port t all)
clear_port-AllAfter P f port (some b ∷ t) (p, all) =
    let rest = clear_port-AllAfter P f port t all in
    if_cases (AllAfter P) (f b == port) (λ _. all)
      (λ _. keep_entry-AllAfter P (some b) (clear_port f port t) (λ t all. (p, all)) rest)

keep_entry-address :
    (x : Option ℕ) (a : ℕ) (t' : Table) (o : Option (ℕ × Table))
    → o ≡ some (a, t')
    → keep_entry x o ≡ some (a, x ∷ t')
unfolding keep_entry
keep_entry-address x a t' o e = rw e refl

entry-address :
    (test : Bool) (a b : ℕ) (t : Table) (rest : Option ℕ) (o : Option (ℕ × Table))
    → (rest ≡ some a → (t' : Table) × (o ≡ some (a, t')))
    → (if test then some b else rest) ≡ some a
    → (t' : Table) × ((if test then some (b, none ∷ t) else keep_entry (some b) o) ≡ some (a, t'))
entry-address true a b t rest o found e =
    (none ∷ t, ap (λ x. some (x, none ∷ t)) (some-injective _ _ e))
entry-address false a b t rest o found e =
    let (t', e') = found e in (some b ∷ t', keep_entry-address (some b) a t' o e')

-- The search finds the first object of the port, whatever else the table holds.
pub clear_port-find :
    (f : ℕ → ℕ) (port a : ℕ) (t : Table)
    → find f port t ≡ some a
    → (t' : Table) × (clear_port f port t ≡ some (a, t'))
unfolding clear_port find
clear_port-find f port a [] e = absurd (cc e)
clear_port-find f port a (none ∷ t) e =
    let (t', e') = clear_port-find f port a t e in
    (none ∷ t', keep_entry-address none a t' (clear_port f port t) e')
clear_port-find f port a (some b ∷ t) e =
    entry-address (f b == port) a b t (find f port t) (clear_port f port t)
      (clear_port-find f port a t) e
