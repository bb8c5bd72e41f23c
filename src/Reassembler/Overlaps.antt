-- ===== src/Reassembler/Overlaps.antt =====
-- The branches of the first loop of `push_substring` in libsponge/stream_reassembler.cc: what its
-- tests say of a node, and what a touched node adds to the substring.
use sponge_2021fall.Common.{
  ℕ, refl, ◌+◌, List, ◌<◌, ◌≤◌, IsU64, arith, length, ◌⊎◌, add64, inr, ◌≡◌, ok, suc, take, ◌++◌,
  ◌||◌, drop, sub64, inl, length-take,
}
use sponge_2021fall.Reassembler.{
  Node, Overlap, irrelevant, covers, inside, before, after, impossible, overlap, substr_from,
}
use sponge_2021fall.Reassembler.Nodes.{stop, within}
use sponge_2021fall.Reassembler.Stream.{Carries, Carries-append, Carries-take, Carries-drop}

-- What the tests of the loop say of a well-formed node, with `past` for `right + 1`.
abbrev pub Tells : ℕ → ℕ → Node → Overlap → Type 0
Tells left past n irrelevant = (stop n < left) ⊎ (past < n.beg)
Tells left past n covers = (n.beg ≤ left) × (past ≤ stop n)
Tells left past n inside = (left ≤ n.beg) × (stop n ≤ past)
Tells left past n before = (n.beg < left) × (left ≤ stop n) × (stop n < past)
Tells left past n after = (left < n.beg) × (n.beg ≤ past) × (past < stop n)
Tells left past n impossible = ⊥

pub overlap-Tells :
    (left right past lo : ℕ) (n : Node)
    → left ≤ past
    → IsU64 past
    → IsU64 right
    → add64 right 1 ≡ past
    → lo < n.beg
    → suc n.end ≡ stop n
    → IsU64 (stop n)
    → Tells left past n (overlap left right n)
unfolding overlap
overlap-Tells left right past lo n h1 h2 h3 h4 h5 h6 h7 = ground arith

-- How the substring and the touched node `n` make up the grown substring.
pub record Absorbs (left past left' past' : ℕ) (s s' : List ℕ) (n : Node) : Type 0 where
  pub starts : left' ≤ stop n
  pub origin : (n.beg ≤ left') ⊎ (left' ≡ left)
  pub touches : n.beg ≤ past
  pub known : (i : ℕ) → within i left' past' ≡ (within i left past || within i n.beg (stop n))
  pub carried : (f : ℕ → ℕ) → Carries f left s → Carries f n.beg n.s → Carries f left' s'

-- Reading on from inside a node that the substring touches.
pub substr_from-ok :
    (s : List ℕ) (from : ℕ) → from ≤ length s → substr_from s from ≡ ok (drop from s)
unfolding substr_from
substr_from-ok s from h = ground arith

pub inside-Absorbs :
    (left past : ℕ) (s : List ℕ) (n : Node)
    → Tells left past n inside
    → Absorbs left past left past s s n
inside-Absorbs left past s n t = record {
  starts = omega arith;
  origin = inr refl;
  touches = omega arith;
  known = λ i. ground arith;
  carried = λ f cs cn. cs;
}

pub before-Absorbs :
    (left past : ℕ) (s : List ℕ) (n : Node)
    → IsU64 left
    → left + length s ≡ past
    → Tells left past n before
    → Absorbs left past n.beg past s (take (sub64 left n.beg) n.s ++ s) n
before-Absorbs left past s n h1 h2 t = record {
  starts = omega arith;
  origin = inl (omega arith);
  touches = omega arith;
  known = λ i. ground arith;
  carried = λ f cs cn.
      Carries-append f n.beg left (take (sub64 left n.beg) n.s) s
        (omega (arith, length-take (sub64 left n.beg) n.s))
        (Carries-take f n.beg (sub64 left n.beg) n.s cn) cs;
}

pub after-Absorbs :
    (left right past : ℕ) (s : List ℕ) (n : Node)
    → IsU64 past
    → add64 right 1 ≡ past
    → left + length s ≡ past
    → Tells left past n after
    → Absorbs left past left (stop n) s (s ++ drop (sub64 (add64 right 1) n.beg) n.s) n
after-Absorbs left right past s n h1 h2 h3 t = record {
  starts = omega arith;
  origin = inr refl;
  touches = omega arith;
  known = λ i. ground arith;
  carried = λ f cs cn.
      Carries-append f left past s (drop (sub64 (add64 right 1) n.beg) n.s) (omega arith) cs (
        Carries-drop f n.beg past (sub64 (add64 right 1) n.beg) n.s (omega arith) (omega arith) cn);
}
