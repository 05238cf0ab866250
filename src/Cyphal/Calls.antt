-- ===== src/Cyphal/Calls.antt =====
-- The calls of the node that change its subscriptions, and what each is to a caller.
use leos_sdk.Prelude.{
  ℕ, zero, suc, true, if◌then◌else◌, ◌==◌, Option, none, some, List, [], ◌∷◌, contains, ◌≡◌,
}
use leos_sdk.Prelude.Int.{ℤ, pos, negsuc}
use leos_sdk.Cyphal.Node.{Kind, Canard, State, subscribe_node, unsubscribe_node}

-- With a port, and for a subscription the extent, the callback and its reference.
pub data Call : Type 0 where
  subscribes : ℕ → ℕ → ℕ → ℕ → Call
  unsubscribes : ℕ → Call

abbrev pub port_of_call : Call → ℕ
port_of_call (subscribes port extent callback user_ref) = port
port_of_call (unsubscribes port) = port

-- The callback of each port and its reference.
abbrev pub Book : Type 0
Book = ℕ → Option (ℕ × ℕ)

abbrev pub no_book : Book
no_book port = none

abbrev pub set_book : Book → ℕ → Option (ℕ × ℕ) → Book
set_book book port o q = if q == port then o else book q

-- A call that answers OK is in the book, and no other.
unfoldable pub told : Call → ℤ → Book → Book
told (subscribes port extent callback user_ref) (pos zero) book =
    set_book book port (some (callback, user_ref))
told (unsubscribes port) (pos zero) book = set_book book port none
told call (pos (suc n)) book = book
told call (negsuc n) book = book

-- Every port is one of the list.
abbrev pub AllUse : List ℕ → List Call → Type 0
AllUse ports [] = zero ≡ zero
AllUse ports (call ∷ calls) = (contains (port_of_call call) ports ≡ true) × AllUse ports calls

module _ {W : Type 0} (canard : Canard W) (kind_for : ℕ → Kind) where
  unfoldable pub do_call : Call → State W → ℤ × State W
  do_call (subscribes port extent callback user_ref) s =
      subscribe_node canard (kind_for port) port extent callback user_ref s
  do_call (unsubscribes port) s = unsubscribe_node canard (kind_for port) port s

  -- The calls in turn, with the book of their answers.
  unfoldable pub run : List Call → Book × State W → Book × State W
  unfolding do_call told
  run [] (book, s) = (book, s)
  run (call ∷ calls) (book, s) =
      let (result, s') = do_call call s in run calls (told call result book, s')
