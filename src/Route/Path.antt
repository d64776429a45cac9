-- ===== src/Route/Path.antt =====
-- route/path.go. A path is the list of its hops; an append on it makes a new slice, so paths are
-- values.
use magic_tun.Base.{ℕ, ◌≡◌, refl, Bool, false, ◌||◌, List, [], ◌∷◌, length}
use magic_tun.Identity.{NodeId, equal}

abbrev pub AsPath : Type 0
AsPath = List NodeId

-- ASPath.AddHop and CloneWithHop: the hop in front
abbrev pub add_hop : AsPath → NodeId → AsPath
add_hop p id = id ∷ p

abbrev pub clone_with_hop : AsPath → NodeId → AsPath
clone_with_hop p id = id ∷ p

-- ASPath.Contains
unfoldable pub contains : AsPath → NodeId → Bool
contains [] id = false
contains (hop ∷ hops) id = equal hop id || contains hops id

-- ASPath.Len
abbrev pub len : AsPath → ℕ
len p = length p

-- ASPath.ToWire and ASPathFromWire: hop by hop, the same 16 bytes
unfoldable pub to_wire : AsPath → List (List ℕ)
to_wire [] = []
to_wire (hop ∷ hops) = hop ∷ to_wire hops

unfoldable pub from_wire : List (List ℕ) → AsPath
from_wire [] = []
from_wire (w ∷ ws) = w ∷ from_wire ws

pub from_wire_self : (ws : List (List ℕ)) → from_wire ws ≡ ws
unfolding from_wire
from_wire_self [] = refl
from_wire_self (w ∷ ws) = rw (from_wire_self ws) refl

pub to_wire_self : (p : AsPath) → to_wire p ≡ p
unfolding to_wire
to_wire_self [] = refl
to_wire_self (hop ∷ hops) = rw (to_wire_self hops) refl
