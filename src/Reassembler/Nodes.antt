-- ===== src/Reassembler/Nodes.antt =====
-- The list of stored substrings of libsponge/stream_reassembler.hh: its order, the bytes in it, and
-- the insertion of a node.
use sponge_2021fall.Common.{
  ℕ, [], ◌∷◌, refl, Bool, List, ◌+◌, IsU64, arith, false, leb, length, ◌<◌, ◌≡◌, ◌≤◌, suc, ◌&&◌,
  ◌||◌, ◌⊎◌, ltb,
}
use sponge_2021fall.Reassembler.{Node, insert}
use sponge_2021fall.Reassembler.Stream.{Carries}

-- The end of a node's bytes.
abbrev pub stop : Node → ℕ
stop n = n.beg + length n.s

-- Nodes in order, each past `lo` and past the one before it by a gap, and none beyond `hi`.
abbrev pub Separated : ℕ → ℕ → List Node → Type 0
Separated lo hi [] = Unit {0}
Separated lo hi (n ∷ ns) =
    (lo < n.beg) × (suc n.end ≡ stop n) × (stop n ≤ hi) × Separated (stop n) hi ns

-- No node touches the interval from `left` to `right`.
abbrev pub Apart : ℕ → ℕ → List Node → Type 0
Apart left right [] = Unit {0}
Apart left right (n ∷ ns) = ((stop n < left) ⊎ (right < n.beg)) × Apart left right ns

-- Is the byte at index `i` between `left` and `past`; is it in a node.
abbrev pub within : ℕ → ℕ → ℕ → Bool
within i left past = leb left i && ltb i past

abbrev pub stored : ℕ → List Node → Bool
stored i [] = false
stored i (n ∷ ns) = within i n.beg (stop n) || stored i ns

-- The nodes hold bytes of the stream `f`.
abbrev pub AllCarry : (ℕ → ℕ) → List Node → Type 0
AllCarry f [] = Unit {0}
AllCarry f (n ∷ ns) = Carries f n.beg n.s × AllCarry f ns

pub Separated-lower :
    (lo lo' hi : ℕ) (ns : List Node) → lo ≤ lo' → Separated lo' hi ns → Separated lo hi ns
Separated-lower lo lo' hi [] h sep = tt
Separated-lower lo lo' hi (n ∷ ns) h sep = (omega arith, sep.1, sep.2, sep.3)

pub insert-Separated :
    (lo hi : ℕ) (n : Node) (ns : List Node)
    → IsU64 (stop n)
    → lo < n.beg
    → suc n.end ≡ stop n
    → stop n ≤ hi
    → Separated lo hi ns
    → Apart n.beg (stop n) ns
    → Separated lo hi (insert n ns)
unfolding insert
insert-Separated lo hi n [] h1 h2 h3 h4 sep ap = (h2, h3, h4, tt)
insert-Separated lo hi n (m ∷ ms) h1 h2 h3 h4 sep ap =
    ground (arith, insert-Separated (stop m) hi n ms h1)

pub stored-insert :
    (i : ℕ) (n : Node) (ns : List Node)
    → stored i (insert n ns) ≡ (within i n.beg (stop n) || stored i ns)
unfolding insert
stored-insert i n [] = refl
stored-insert i n (m ∷ ms) = ground (arith, stored-insert i n ms)

pub insert-AllCarry :
    (f : ℕ → ℕ) (n : Node) (ns : List Node)
    → Carries f n.beg n.s
    → AllCarry f ns
    → AllCarry f (insert n ns)
unfolding insert
insert-AllCarry f n [] hn hs = (hn, tt)
insert-AllCarry f n (m ∷ ms) hn hs = ground (arith, insert-AllCarry f n ms)

-- Past a substring that starts at `lo` all nodes that it does not touch are in order.
pub Separated-past :
    (lo hi past : ℕ) (ns : List Node) → Separated lo hi ns → Apart lo past ns → Separated past hi ns
Separated-past lo hi past [] sep ap = tt
Separated-past lo hi past (n ∷ ns) sep ap = (omega (arith, sep.0, ap.0), sep.1, sep.2, sep.3)
