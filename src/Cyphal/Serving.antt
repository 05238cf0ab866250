-- ===== src/Cyphal/Serving.antt =====
-- A state serves a book: each port's transfers go to the callback that the book has for it.
use leos_sdk.Prelude.{
  ℕ, zero, ◌≤◌, Bool, true, false, Bool-cases, if◌then◌else◌, if_cases, ◌==◌, ==_iff, ==_false,
  Option, none, some, List, length, contains, ◌≡◌, inl, inr, refl, sym, ap, ◌∙◌, arith,
}
use leos_sdk.Prelude.Int.{ℤ}
use leos_sdk.Cyphal.Node.{Kind, Canard, Handler, State, dispatch}
use leos_sdk.Cyphal.Slots.{find, find-AllObjects, AllObjects-map}
use leos_sdk.Cyphal.Filling.{IsFull}
use leos_sdk.Cyphal.Laws.{View}
use leos_sdk.Cyphal.Tracking.{set_port, Represents, Pending}
use leos_sdk.Cyphal.Subscribing.{Subscription, failed, tracked, untracked, handler_of}
use leos_sdk.Cyphal.Unsubscribing.{Cancellation, kept, cancelled}
use leos_sdk.Cyphal.Dispatch.{with_handler-here, dispatch-handler}
use leos_sdk.Cyphal.Capacity.{AllObjects-find, IsFull-length}
use leos_sdk.Cyphal.Places.{KeepsLive, SamePlaces}
use leos_sdk.Cyphal.Calls.{Book, set_book, subscribes, unsubscribes, told}

-- The object of a port has the callback of the book, and there is an object where there is one.
abbrev pub Handled : (ℕ → Handler) → Option ℕ → Option (ℕ × ℕ) → Type 0
Handled handlers none none = zero ≡ zero
Handled handlers none (some _) = true ≡ false
Handled handlers (some a) none = true ≡ false
Handled handlers (some a) (some (callback, user_ref)) = handlers a ≡ handler_of callback user_ref a

Handled-same :
    (h h' : ℕ → Handler) (o : Option ℕ) (v : Option (ℕ × ℕ))
    → ((a : ℕ) → o ≡ some a → h' a ≡ h a)
    → Handled h o v
    → Handled h' o v
Handled-same h h' none none same e = e
Handled-same h h' none (some _) same e = e
Handled-same h h' (some a) none same e = e
Handled-same h h' (some a) (some (c, u)) same e = same a refl ∙ e

Handled-if :
    (h : ℕ → Handler) (b : Bool) (o o' : Option ℕ) (v v' : Option (ℕ × ℕ))
    → Handled h o v
    → (b ≡ false → Handled h o' v')
    → Handled h (if b then o else o') (if b then v else v')
Handled-if h true o o' v v' here others = here
Handled-if h false o o' v v' here others = others refl

Handled-dispatch :
    (h : ℕ → Handler) (o : Option ℕ) (v : Option (ℕ × ℕ)) → Handled h o v → dispatch h true o ≡ v
unfolding dispatch
Handled-dispatch h none none e = refl
Handled-dispatch h none (some _) e = absurd (cc e)
Handled-dispatch h (some a) none e = absurd (cc e)
Handled-dispatch h (some a) (some (c, u)) e = dispatch-handler h a c u e

module _ {W : Type 0} (canard : Canard W) (view : View W) (kind_for : ℕ → Kind)
    (ports : List ℕ) where
  -- Table and registry hold one map of objects, for the listed ports, whose handlers are the
  -- book's; and the table has a place for each of these ports.
  pub record Serves (book : Book) (s : State W) : Type 0 where
    pub objects : ℕ → Option ℕ
    pub represents : Represents canard view kind_for objects s.world s.subscriptions
    pub handled : (p : ℕ) → Handled s.handlers (objects p) (book p)
    pub used : (p a : ℕ) → objects p ≡ some a → contains p ports ≡ true
    pub room : length ports ≤ length s.subscriptions

  -- A transfer of a port, which libcanard gives with the object registered, goes by the book.
  pub Serves-dispatch :
      (book : Book) (s : State W)
      → Serves book s
      → (p : ℕ) → dispatch s.handlers true (view.registered s.world (kind_for p) p) ≡ book p
  Serves-dispatch book s serves p =
      ap (dispatch s.handlers true) (serves.represents.registry p)
      ∙ Handled-dispatch s.handlers (serves.objects p) (book p) (serves.handled p)

  module _ (book : Book) (s : State W) (serves : Serves book s) where
    object-IsLive : (p a : ℕ) → serves.objects p ≡ some a → view.IsLive s.world a
    object-IsLive p a e =
        (find-AllObjects _ _ p s.subscriptions a serves.represents.live
          (serves.represents.table p ∙ e)).0

    module _ (s' : State W) (keeps : KeepsLive canard view s s') where
      still-Handled : (p : ℕ) → Handled s'.handlers (serves.objects p) (book p)
      still-Handled p =
          Handled-same s.handlers s'.handlers (serves.objects p) (book p)
            (λ a e. keeps.handlers a (object-IsLive p a e)) (serves.handled p)

      still_room : length ports ≤ length s'.subscriptions
      still_room = let room = serves.room in let size = keeps.size in omega arith

      Serves-same :
          Represents canard view kind_for serves.objects s'.world s'.subscriptions → Serves book s'
      Serves-same rep = record {
        objects = serves.objects;
        represents = rep;
        handled = still-Handled;
        used = serves.used;
        room = still_room;
      }

      Serves-set_port :
          (p : ℕ) (o : Option ℕ) (v : Option (ℕ × ℕ))
          → contains p ports ≡ true
          → Handled s'.handlers o v
          → Represents canard view kind_for (set_port serves.objects p o) s'.world s'.subscriptions
          → Serves (set_book book p v) s'
      Serves-set_port p o v listed handled rep = record {
        objects = set_port serves.objects p o;
        represents = rep;
        handled = λ q. Handled-if s'.handlers (q == p) _ _ _ _ handled (λ _. still-Handled q);
        used = λ q a.
            if_cases (λ x. x ≡ some a → contains q ports ≡ true) (q == p)
              (λ same _. ap (λ r. contains r ports) ((==_iff q p).0 same) ∙ listed)
              (λ _ e. serves.used q a e);
        room = still_room;
      }

      -- A new object always finds a place.
      has_room :
          (p a : ℕ)
          → contains p ports ≡ true
          → IsFull s'.subscriptions
          → Pending canard view kind_for serves.objects p a s'.world s'.subscriptions
          → find (canard.port_of s'.world) p s'.subscriptions ≡ none
          → ⊥
      has_room p a listed full pending free =
          let f = canard.port_of s'.world in
          let uses =
            AllObjects-map {Q = λ b. contains (f b) ports ≡ true} s'.subscriptions
              (λ b e. elim (Bool-cases (f b == p)) [
                | inl same ↦ ap (λ r. contains r ports) ((==_iff (f b) p).0 same) ∙ listed
                | inr other ↦
                    serves.used (f b) b (sym (pending.table (f b) (==_false (f b) p other)) ∙ e)
              ])
              (AllObjects-find f s'.subscriptions pending.one) in
          let more = IsFull-length f s'.subscriptions p ports pending.one uses listed free full in
          let room = still_room in omega arith

    pub Subscription-Serves :
        (p extent callback user_ref : ℕ) (r : ℤ) (s' : State W)
        → contains p ports ≡ true
        → KeepsLive canard view s s'
        → Subscription canard view kind_for serves.objects p (handler_of callback user_ref) s r s'
        → Serves (told (subscribes p extent callback user_ref) r book) s'
    unfolding told
    Subscription-Serves p extent c u r s' listed keeps (failed e rep) = Serves-same s' keeps rep
    Subscription-Serves p extent c u r s' listed keeps (tracked {a = a} new rep e) =
        Serves-set_port s' keeps p (some a) (some (c, u)) listed
          (ap (λ f. f a) e ∙ with_handler-here s.handlers a (handler_of c u a)) rep
    Subscription-Serves p extent c u r s' listed keeps (untracked {a = a} full pending free) =
        absurd (has_room s' keeps p a listed full pending free)

    pub Cancellation-Serves :
        (p : ℕ) (r : ℤ) (s' : State W)
        → contains p ports ≡ true
        → SamePlaces s s'
        → Cancellation canard view kind_for serves.objects p r s'
        → Serves (told (unsubscribes p) r book) s'
    unfolding told
    Cancellation-Serves p r s' listed same (kept rep) =
        Serves-same s' (record { size = same.size; handlers = λ b _. ap (λ f. f b) same.handlers })
          rep
    Cancellation-Serves p r s' listed same (cancelled rep freed) =
        Serves-set_port s'
          (record { size = same.size; handlers = λ b _. ap (λ f. f b) same.handlers }) p none none
          listed refl rep
