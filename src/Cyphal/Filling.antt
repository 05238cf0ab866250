-- ===== src/Cyphal/Filling.antt =====
-- The table after fill.
use leos_sdk.Prelude.{
  ℕ, zero, true, false, if◌then◌else◌, if_cases, ◌==◌, ◌≡◌, ◌≢◌, refl, sym, ap, ◌∙◌, arith, Option,
  none, some, [], ◌∷◌,
}
use leos_sdk.Cyphal.Table.{Table, behind, fill}
use leos_sdk.Cyphal.Slots.{find, AllObjects, OnePerPort, find-same, find-other}

-- No entry is NULL.
abbrev pub IsFull : Table → Type 0
IsFull [] = zero ≡ zero
IsFull (none ∷ t) = true ≡ false
IsFull (some a ∷ t) = IsFull t

-- What a new object, of a port that had none, does to the map; `P` holds of the table's objects.
pub record IsFilled (P : ℕ → Type 0) (f : ℕ → ℕ) (a : ℕ) (t t' : Table) : Type 0 where
  pub found : find f (f a) t' ≡ some a
  pub others : (q : ℕ) → q ≢ f a → find f q t' ≡ find f q t
  pub one : OnePerPort f t'
  pub objects : AllObjects P t'

pub data Filling (P : ℕ → Type 0) (f : ℕ → ℕ) (a : ℕ) (t : Table) : Option Table → Type 0 where
  full : IsFull t → Filling P f a t none
  filled : {t' : Table} → IsFilled P f a t t' → Filling P f a t (some t')

Filling-some :
    (P : ℕ → Type 0) (f : ℕ → ℕ) (a b : ℕ) (t : Table) (o : Option Table)
    → P b
    → find f (f b) t ≡ none
    → f b ≢ f a
    → Filling P f a t o
    → Filling P f a (some b ∷ t) (behind (some b) o)
unfolding behind find
Filling-some P f a b t none p free ne (full e) = full e
Filling-some P f a b t (some t') p free ne (filled c) = filled (record {
  found = find-other f (f a) b t' ne ∙ c.found;
  others = λ q qne. ap (λ o. if f b == q then some b else o) (c.others q qne);
  one = (c.others (f b) ne ∙ free, c.one);
  objects = (p, c.objects);
})

pub fill-Filling :
    (P : ℕ → Type 0) (f : ℕ → ℕ) (a : ℕ) (t : Table)
    → P a
    → OnePerPort f t
    → AllObjects P t
    → find f (f a) t ≡ none
    → Filling P f a t (fill a t)
unfolding fill find
fill-Filling P f a [] p one all e = full refl
fill-Filling P f a (none ∷ t) p one all e = filled (record {
  found = find-same f (f a) a t refl;
  others = λ q ne. find-other f q a t (λ k. ne (sym k));
  one = (e, one);
  objects = (p, all);
})
fill-Filling P f a (some b ∷ t) p (free, one) (pb, all) e =
    if_cases (λ o. o ≡ none → Filling P f a (some b ∷ t) (behind (some b) (fill a t))) (f b == f a)
      (λ _ e. absurd (cc e))
      (λ other e.
        Filling-some P f a b t _ pb free (λ k. ground arith) (fill-Filling P f a t p one all e))
      e
