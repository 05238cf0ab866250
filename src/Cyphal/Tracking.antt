-- ===== src/Cyphal/Tracking.antt =====
-- The table and libcanard's registry as two representations of one map from ports to objects.
use leos_sdk.Prelude.{
  ℕ, if◌then◌else◌, if_cases, ◌==◌, ==_iff, ◌≡◌, ◌≢◌, sym, ap, ◌∙◌, arith, Option, none, some,
}
use mathlib.Core.Path.{subst}
use leos_sdk.Cyphal.Table.{Table}
use leos_sdk.Cyphal.Node.{Kind, Canard}
use leos_sdk.Cyphal.Slots.{
  find, AllObjects, OnePerPort, AllObjects-map, find-ports, OnePerPort-ports, find-AllObjects,
  find-none,
}
use leos_sdk.Cyphal.Clearing.{IsCleared}
use leos_sdk.Cyphal.Filling.{IsFilled}
use leos_sdk.Cyphal.Laws.{View, Preserves, SameRegistry, Frees, Registers}

-- The map with the value of one port replaced.
abbrev pub set_port : (ℕ → Option ℕ) → ℕ → Option ℕ → ℕ → Option ℕ
set_port m p o q = if q == p then o else m q

pub set_port-cases :
    (m : ℕ → Option ℕ) (p : ℕ) (o : Option ℕ) (f : ℕ → Option ℕ)
    → f p ≡ o
    → ((q : ℕ) → q ≢ p → f q ≡ m q)
    → (q : ℕ) → f q ≡ set_port m p o q
set_port-cases m p o f at others q =
    if_cases (λ v. f q ≡ v) (q == p) (λ same. ap f ((==_iff q p).0 same) ∙ at)
      (λ other. others q (λ e. ground arith))

module _ {W : Type 0} (canard : Canard W) (view : View W) (kind_for : ℕ → Kind) where
  -- The table and the registry both hold the map `m`, where each port is used with one kind, and
  -- the objects of the table are allocated.
  pub record Represents (m : ℕ → Option ℕ) (w : W) (t : Table) : Type 0 where
    pub table : (p : ℕ) → find (canard.port_of w) p t ≡ m p
    pub registry : (p : ℕ) → view.registered w (kind_for p) p ≡ m p
    pub one : OnePerPort (canard.port_of w) t
    pub live : AllObjects (view.IsLive w) t

  -- The table's objects keep their ports and stay allocated where none is excepted.
  ports_kept :
      (except : ℕ → Type 0) (w w' : W) (t : Table)
      → Preserves canard view except w w'
      → AllObjects (λ b. view.IsLive w b × ¬ except b) t
      → AllObjects (λ b. canard.port_of w b ≡ canard.port_of w' b) t
  ports_kept except w w' t kept = AllObjects-map t (λ b (l, ne). kept.port b l ne)

  objects_kept :
      (except : ℕ → Type 0) (w w' : W) (t : Table)
      → Preserves canard view except w w'
      → AllObjects (λ b. view.IsLive w b × ¬ except b) t
      → AllObjects (view.IsLive w') t
  objects_kept except w w' t kept = AllObjects-map t (λ b (l, ne). kept.live b l ne)

  pub Represents-Preserves :
      (except : ℕ → Type 0) (m : ℕ → Option ℕ) (w w' : W) (t : Table)
      → Preserves canard view except w w'
      → SameRegistry canard view (λ k p. ⊥) w w'
      → AllObjects (λ b. view.IsLive w b × ¬ except b) t
      → Represents m w t
      → Represents m w' t
  Represents-Preserves except m w w' t kept same objects r =
      let ports = ports_kept except w w' t kept objects in
      record {
        table = λ p. sym (find-ports _ _ p t ports) ∙ r.table p;
        registry = λ p. same (kind_for p) p (λ x. x) ∙ r.registry p;
        one = OnePerPort-ports _ _ t ports r.one;
        live = objects_kept except w w' t kept objects;
      }

  -- The object `a` is registered for the port `p`; elsewhere table and registry hold `m`.
  pub record Pending (m : ℕ → Option ℕ) (p a : ℕ) (w : W) (t : Table) : Type 0 where
    pub table : (q : ℕ) → q ≢ p → find (canard.port_of w) q t ≡ m q
    pub registry : (q : ℕ) → q ≢ p → view.registered w (kind_for q) q ≡ m q
    pub at_key : view.registered w (kind_for p) p ≡ some a
    pub port : canard.port_of w a ≡ p
    pub one : OnePerPort (canard.port_of w) t
    pub live : view.IsLive w a
    pub objects : AllObjects (λ b. view.IsLive w b × (b ≢ a)) t

  pub Pending-Registers :
      (m : ℕ → Option ℕ) (p a : ℕ) (w w' : W) (t : Table)
      → Registers canard view (kind_for p) p a w w'
      → AllObjects (λ b. view.IsLive w b × (b ≢ a)) t
      → Represents m w t
      → Pending m p a w' t × (find (canard.port_of w') p t ≡ m p)
  Pending-Registers m p a w w' t reg objects r =
      let ports = ports_kept (λ b. b ≡ a) w w' t reg.kept objects in
      (
        record {
          table = λ q ne. sym (find-ports _ _ q t ports) ∙ r.table q;
          registry = λ q ne. reg.registry (kind_for q) q (λ (_, e). ne e) ∙ r.registry q;
          at_key = reg.at_key;
          port = reg.port;
          one = OnePerPort-ports _ _ t ports r.one;
          live = reg.live;
          objects = AllObjects-map t (λ b (l, ne). (reg.kept.live b l ne, ne)) objects;
        },
        sym (find-ports _ _ p t ports) ∙ r.table p,
      )

  -- The old object of the port is freed and its entry cleared.
  pub Pending-Frees :
      (m : ℕ → Option ℕ) (p a old : ℕ) (w w' : W) (t t' : Table)
      → Frees canard view old w w'
      → IsCleared (canard.port_of w) p t old t'
      → AllObjects (λ b. view.IsLive w b × (b ≢ a)) t'
      → Pending m p a w t
      → Pending m p a w' t' × (find (canard.port_of w') p t' ≡ none)
  Pending-Frees m p a old w w' t t' free c objects s =
      let ((_, ne_a), at_p) = find-AllObjects _ _ p t old s.objects c.was in
      let apart = find-none _ _ p t' objects c.gone in
      let objects' =
        AllObjects-map {Q = λ b. (view.IsLive w b × (b ≢ old)) × (b ≢ a)} t'
          (λ b ((l, ne), np). ((l, λ e. np (ap (canard.port_of w) e ∙ at_p)), ne)) apart in
      let ports =
        ports_kept (λ b. b ≡ old) w w' t' free.kept (AllObjects-map t' (λ b x. x.0) objects') in
      (
        record {
          table = λ q ne. sym (find-ports _ _ q t' ports) ∙ c.others q ne ∙ s.table q ne;
          registry = λ q ne. free.registry (kind_for q) q (λ x. x) ∙ s.registry q ne;
          at_key = free.registry (kind_for p) p (λ x. x) ∙ s.at_key;
          port = sym (free.kept.port a s.live (λ e. ne_a (sym e))) ∙ s.port;
          one = OnePerPort-ports _ _ t' ports c.one;
          live = free.kept.live a s.live (λ e. ne_a (sym e));
          objects =
              AllObjects-map t' (λ b ((l, ne_old), ne). (free.kept.live b l ne_old, ne)) objects';
        },
        sym (find-ports _ _ p t' ports) ∙ c.gone,
      )

  -- The new object stands in the table.
  pub Represents-IsFilled :
      (m : ℕ → Option ℕ) (p a : ℕ) (w : W) (t t' : Table)
      → Pending m p a w t
      → IsFilled (view.IsLive w) (canard.port_of w) a t t'
      → Represents (set_port m p (some a)) w t'
  Represents-IsFilled m p a w t t' s c = record {
    table =
        set_port-cases m p (some a) (λ q. find (canard.port_of w) q t')
          (subst (λ x. find (canard.port_of w) x t' ≡ some a) s.port c.found)
          (λ q ne. c.others q (λ e. ne (e ∙ s.port)) ∙ s.table q ne);
    registry =
        set_port-cases m p (some a) (λ q. view.registered w (kind_for q) q) s.at_key s.registry;
    one = c.one;
    live = c.objects;
  }

  -- No object is registered for the port `p` any more; its entry is still in the table.
  pub record Leaving (m : ℕ → Option ℕ) (p : ℕ) (w : W) (t : Table) : Type 0 where
    pub table : (q : ℕ) → find (canard.port_of w) q t ≡ m q
    pub registry : (q : ℕ) → view.registered w (kind_for q) q ≡ set_port m p none q
    pub one : OnePerPort (canard.port_of w) t
    pub live : AllObjects (view.IsLive w) t

  pub Leaving-Preserves :
      (m : ℕ → Option ℕ) (p : ℕ) (w w' : W) (t : Table)
      → Preserves canard view (λ b. ⊥) w w'
      → SameRegistry canard view (λ k q. (k ≡ kind_for p) × (q ≡ p)) w w'
      → view.registered w' (kind_for p) p ≡ none
      → Represents m w t
      → Leaving m p w' t
  Leaving-Preserves m p w w' t kept same at r =
      let objects = AllObjects-map {Q = λ b. view.IsLive w b × ¬ ⊥} t (λ b l. (l, λ x. x)) r.live in
      let ports = ports_kept (λ b. ⊥) w w' t kept objects in
      record {
        table = λ p. sym (find-ports _ _ p t ports) ∙ r.table p;
        registry =
            set_port-cases m p none (λ q. view.registered w' (kind_for q) q) at
              (λ q ne. same (kind_for q) q (λ (_, e). ne e) ∙ r.registry q);
        one = OnePerPort-ports _ _ t ports r.one;
        live = objects_kept (λ b. ⊥) w w' t kept objects;
      }

  -- The object of the port is freed and its entry cleared.
  pub Represents-Frees :
      (m : ℕ → Option ℕ) (p old : ℕ) (w w' : W) (t t' : Table)
      → Frees canard view old w w'
      → IsCleared (canard.port_of w) p t old t'
      → AllObjects (view.IsLive w) t'
      → Leaving m p w t
      → Represents (set_port m p none) w' t'
  Represents-Frees m p old w w' t t' free c objects s =
      let (_, at_p) = find-AllObjects _ _ p t old s.live c.was in
      let apart =
        AllObjects-map {Q = λ b. view.IsLive w b × (b ≢ old)} t'
          (λ b (l, np). (l, λ e. np (ap (canard.port_of w) e ∙ at_p)))
          (find-none _ _ p t' objects c.gone) in
      let ports = ports_kept (λ b. b ≡ old) w w' t' free.kept apart in
      record {
        table =
            set_port-cases m p none (λ q. find (canard.port_of w') q t')
              (sym (find-ports _ _ p t' ports) ∙ c.gone)
              (λ q ne. sym (find-ports _ _ q t' ports) ∙ c.others q ne ∙ s.table q);
        registry = λ q. free.registry (kind_for q) q (λ x. x) ∙ s.registry q;
        one = OnePerPort-ports _ _ t' ports c.one;
        live = objects_kept (λ b. b ≡ old) w w' t' free.kept apart;
      }
