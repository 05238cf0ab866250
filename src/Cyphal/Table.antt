-- ===== src/Cyphal/Table.antt =====
-- The node's table of subscriptions and the two loops over it (src/leos_cyphal/node/cyphal.c).
use leos_sdk.Prelude.{ℕ, if◌then◌else◌, ◌==◌, Option, none, some, List, [], ◌∷◌}

-- `node->subscriptions`: an entry is NULL or the address of a subscription object.
abbrev pub Table : Type 0
Table = List (Option ℕ)

unfoldable pub keep_entry : Option ℕ → Option (ℕ × Table) → Option (ℕ × Table)
keep_entry x none = none
keep_entry x (some (a, t)) = some (a, x ∷ t)

-- The search for an entry by its `sub.port_id`, which is then replaced by NULL; `ports` reads the
-- `port_id` of the object at an address. The answer is that address and the new table.
unfoldable pub clear_port : (ℕ → ℕ) → ℕ → Table → Option (ℕ × Table)
unfolding keep_entry
clear_port ports port [] = none
clear_port ports port (none ∷ t) = keep_entry none (clear_port ports port t)
clear_port ports port (some a ∷ t) =
    let rest = clear_port ports port t in
    if ports a == port then some (a, none ∷ t) else keep_entry (some a) rest

unfoldable pub behind : Option ℕ → Option Table → Option Table
behind x none = none
behind x (some t) = some (x ∷ t)

-- The search for a NULL entry, which then holds the new object.
unfoldable pub fill : ℕ → Table → Option Table
unfolding behind
fill a [] = none
fill a (none ∷ t) = some (some a ∷ t)
fill a (some b ∷ t) = behind (some b) (fill a t)
