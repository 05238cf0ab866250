-- ===== src/Cyphal/Capacity.antt =====
-- A table with a place for each port that is used does not run out of places.
use leos_sdk.Prelude.{
  ℕ, zero, suc, ◌≤◌, ◌<◌, true, if◌then◌else◌, if_cases, ◌==◌, ==_false, Option, none, some, List,
  [], ◌∷◌, length, contains, ◌≡◌, ◌≢◌, refl, sym, ap, ◌∙◌, arith,
}
use leos_sdk.Cyphal.Table.{Table, keep_entry, clear_port, behind, fill}
use leos_sdk.Cyphal.Slots.{
  find, AllObjects, OnePerPort, AllObjects-map, find-none, find-same, find-other,
}
use leos_sdk.Cyphal.Filling.{IsFull}

unfoldable remove : ℕ → List ℕ → List ℕ
remove x [] = []
remove x (y ∷ l) = let rest = remove x l in if y == x then rest else y ∷ rest

contains-remove :
    (x y : ℕ) (l : List ℕ) → contains y l ≡ true → y ≢ x → contains y (remove x l) ≡ true
unfolding remove contains
contains-remove x y [] e ne = e
contains-remove x y (z ∷ l) e ne = let rest = contains-remove x y l in ground arith

length-remove_le : (x : ℕ) (l : List ℕ) → length (remove x l) ≤ length l
unfolding remove
length-remove_le x [] = omega arith
length-remove_le x (y ∷ l) = let rest = length-remove_le x l in ground arith

length-remove : (x : ℕ) (l : List ℕ) → contains x l ≡ true → length (remove x l) < length l
unfolding remove contains
length-remove x [] e = absurd (cc e)
length-remove x (y ∷ l) e =
    let rest = length-remove x l in let le = length-remove_le x l in ground arith

-- The object of its own port is found.
pub AllObjects-find :
    (f : ℕ → ℕ) (t : Table) → OnePerPort f t → AllObjects (λ b. find f (f b) t ≡ some b) t
unfolding find
AllObjects-find f [] one = refl
AllObjects-find f (none ∷ t) one = AllObjects-find f t one
AllObjects-find f (some a ∷ t) (free, one) = (
  find-same f (f a) a t refl,
  AllObjects-map t
      (λ b e.
        find-other f (f b) a t (λ same. absurd (cc (sym free ∙ ap (λ p. find f p t) same ∙ e))) ∙ e)
      (AllObjects-find f t one),
)

-- A full table, of one object for each port, in which a port has no object: there is a port more
-- than places.
pub IsFull-length :
    (f : ℕ → ℕ) (t : Table) (p : ℕ) (ports : List ℕ)
    → OnePerPort f t
    → AllObjects (λ b. contains (f b) ports ≡ true) t
    → contains p ports ≡ true
    → find f p t ≡ none
    → IsFull t
    → length t < length ports
unfolding find
IsFull-length f [] p ports one all e free full =
    let shorter = length-remove p ports e in omega arith
IsFull-length f (none ∷ t) p ports one all e free full = absurd (cc full)
IsFull-length f (some a ∷ t) p ports (gone, one) (use_a, all) e free full =
    if_cases (λ o. o ≡ none → length (some a ∷ t) < length ports) (f a == p) (λ _ k. absurd (cc k))
      (λ other k.
        let rest =
          IsFull-length f t p (remove (f a) ports) one
            (AllObjects-map t (λ b (u, ne). contains-remove (f a) (f b) ports u ne)
              (find-none _ f (f a) t all gone))
            (contains-remove (f a) p ports e (λ same. ==_false (f a) p other (sym same))) k full in
        let shorter = length-remove (f a) ports use_a in omega arith)
      free

-- The places of the tables that the loops leave.
abbrev pub Sized : ℕ → Option Table → Type 0
Sized n none = zero ≡ zero
Sized n (some t) = length t ≡ n

abbrev pub SizedAfter : ℕ → Option (ℕ × Table) → Type 0
SizedAfter n none = zero ≡ zero
SizedAfter n (some (a, t)) = length t ≡ n

Sized-behind : (n : ℕ) (x : Option ℕ) (o : Option Table) → Sized n o → Sized (suc n) (behind x o)
unfolding behind
Sized-behind n x none e = refl
Sized-behind n x (some t) e = ap suc e

pub fill-Sized : (a : ℕ) (t : Table) → Sized (length t) (fill a t)
unfolding fill
fill-Sized a [] = refl
fill-Sized a (none ∷ t) = refl
fill-Sized a (some b ∷ t) = Sized-behind (length t) (some b) (fill a t) (fill-Sized a t)

SizedAfter-keep_entry :
    (n : ℕ) (x : Option ℕ) (o : Option (ℕ × Table))
    → SizedAfter n o
    → SizedAfter (suc n) (keep_entry x o)
unfolding keep_entry
SizedAfter-keep_entry n x none e = refl
SizedAfter-keep_entry n x (some (a, t)) e = ap suc e

pub clear_port-SizedAfter :
    (f : ℕ → ℕ) (p : ℕ) (t : Table) → SizedAfter (length t) (clear_port f p t)
unfolding clear_port
clear_port-SizedAfter f p [] = refl
clear_port-SizedAfter f p (none ∷ t) =
    SizedAfter-keep_entry (length t) none (clear_port f p t) (clear_port-SizedAfter f p t)
clear_port-SizedAfter f p (some a ∷ t) =
    if_cases (λ o. SizedAfter (suc (length t)) o) (f a == p) (λ _. refl)
      (λ _.
        SizedAfter-keep_entry (length t) (some a) (clear_port f p t) (clear_port-SizedAfter f p t))
