-- ===== src/Reassembler/Merge.antt =====
-- The first loop of `push_substring` in libsponge/stream_reassembler.cc: which nodes it erases, and
-- what the substring has grown to.
use sponge_2021fall.Common.{
  ◌++◌, refl, length-append, length-take, length-drop, take, drop, ℕ, suc, ◌+◌, ◌≤◌, ◌<◌, ◌≡◌, ◌⊎◌,
  List, [], ◌∷◌, arith, length, add64, IsU64, Result, ok, ap, throw, inr, sub64, true, ◌||◌,
}
use sponge_2021fall.Reassembler.{
  Node, Overlap, irrelevant, covers, inside, before, after, impossible, overlap, keep, merge,
  Outcome, covered, merged,
}
use sponge_2021fall.Reassembler.Overlaps.{
  Tells, overlap-Tells, Absorbs, substr_from-ok, inside-Absorbs, before-Absorbs, after-Absorbs,
}
use sponge_2021fall.Reassembler.Nodes.{
  stop, Separated, Apart, within, stored, AllCarry, Separated-lower,
}
use sponge_2021fall.Reassembler.Stream.{Carries}

-- What the loop leaves behind if it ends with a grown substring, from a substring from `left` up to
-- `past` and nodes between `lo` and `hi`.
pub record Merged (lo hi left past : ℕ) (s : List ℕ) (ns : List Node) (left' right' : ℕ)
    (s' : List ℕ) (ns' : List Node) : Type 0 where
  pub size : left' + length s' ≡ add64 right' 1
  pub word : IsU64 right'
  pub fits : left' + length s' ≤ hi
  pub separated : Separated lo hi ns'
  pub apart : Apart left' (left' + length s') ns'
  pub origin : (lo < left') ⊎ (left' ≡ left)
  pub beyond : past ≤ lo → left' + length s' ≡ past
  pub known :
      (i : ℕ)
      → (within i left' (left' + length s') || stored i ns') ≡ (within i left past || stored i ns)
  pub carried : (f : ℕ → ℕ) → Carries f left s → AllCarry f ns → Carries f left' s' × AllCarry f ns'

abbrev pub Merges : ℕ → ℕ → ℕ → ℕ → List ℕ → List Node → Result Outcome → Type 0
Merges lo hi left past s ns (ok (covered ns')) =
    (lo < left) × (ns' ≡ ns) × ((i : ℕ) → left ≤ i → i < past → stored i ns ≡ true)
Merges lo hi left past s ns (ok (merged s' left' right' ns')) =
    Merged lo hi left past s ns left' right' s' ns'
Merges lo hi left past s ns (throw e) = ⊥

keep-Merges :
    (lo hi left past : ℕ) (s : List ℕ) (n : Node) (ns : List Node) (r : Result Outcome)
    → lo < n.beg
    → suc n.end ≡ stop n
    → stop n ≤ hi
    → left ≤ past
    → (stop n < left) ⊎ (past < n.beg)
    → Merges (stop n) hi left past s ns r
    → Merges lo hi left past s (n ∷ ns) (keep n r)
unfolding keep
keep-Merges lo hi left past s n ns (ok (covered ns')) h1 h2 h3 h4 h5 (h6, e, all) =
    (omega arith, ap (◌∷◌ n) e, λ i p q. ground (arith, all i p q))
keep-Merges lo hi left past s n ns (ok (merged s' left' right' ns')) h1 h2 h3 h4 h5 m = record {
  size = m.size;
  word = m.word;
  fits = m.fits;
  separated = (h1, h2, h3, m.separated);
  apart = (ground (arith, m.origin, m.beyond), m.apart);
  origin = ground (arith, m.origin);
  beyond = λ h. omega (arith, m.beyond);
  known = λ i. ground (arith, m.known i);
  carried = λ f cs cn. let (c, cs') = m.carried f cs cn.1 in (c, (cn.0, cs'));
}
keep-Merges lo hi left past s n ns (throw e) h1 h2 h3 h4 h5 m = m

-- Such a substring is not covered by a later node, and it keeps to what is past `lo`.
absorb-Merges :
    (lo hi left left' past past' : ℕ) (s s' : List ℕ) (n : Node) (ns : List Node)
    (r : Result Outcome)
    → lo < n.beg
    → suc n.end ≡ stop n
    → Absorbs left past left' past' s s' n
    → Merges (stop n) hi left' past' s' ns r
    → Merges lo hi left past s (n ∷ ns) r
absorb-Merges lo hi left left' past past' s s' n ns (ok (covered t)) h1 h2 b (h3, e, all) =
    absurd (omega (arith, b.starts))
absorb-Merges lo hi left left' past past' s s' n ns (ok (merged t l r ns')) h1 h2 b m = record {
  size = m.size;
  word = m.word;
  fits = m.fits;
  separated = Separated-lower lo (stop n) hi ns' (omega arith) m.separated;
  apart = m.apart;
  origin = ground (arith, m.origin, b.origin);
  beyond = λ h. absurd (omega (arith, b.touches));
  known = λ i. ground (arith, m.known i, b.known i);
  carried = λ f cs cn. m.carried f (b.carried f cs cn.0) cn.1;
}
absorb-Merges lo hi left left' past past' s s' n ns (throw e) h1 h2 b m = m

-- The first loop neither throws nor reads past a node; what it keeps is in order and apart from
-- the grown substring.
pub merge-Merges :
    (lo hi left right past : ℕ) (s : List ℕ) (ns : List Node)
    → IsU64 hi
    → IsU64 right
    → add64 right 1 ≡ past
    → left + length s ≡ past
    → past ≤ hi
    → Separated lo hi ns
    → Merges lo hi left past s ns (merge left right s ns)
unfolding merge
merge-Merges lo hi left right past s [] h1 h2 h3 h4 h5 sep = record {
  size = omega arith;
  word = h2;
  fits = omega arith;
  separated = tt;
  apart = tt;
  origin = inr refl;
  beyond = λ h. h4;
  known = λ i. ground arith;
  carried = λ f cs cn. (cs, tt);
}
merge-Merges lo hi left right past s (n ∷ ns) h1 h2 h3 h4 h5 (a, b, c, rest) =
    step (overlap left right n) refl
      (overlap-Tells left right past lo n (omega arith) (omega arith) h2 h3 a b (omega arith))
      (merge-Merges (stop n) hi left right past s ns h1 h2 h3 h4 h5 rest)
      (λ h.
        merge-Merges (stop n) hi n.beg right past (take (sub64 left n.beg) n.s ++ s) ns h1 h2 h3
          (omega (
            arith,
            h,
            length-append (take (sub64 left n.beg) n.s) s,
            length-take (sub64 left n.beg) n.s,
          ))
          h5 rest)
      (λ h.
        merge-Merges (stop n) hi left n.end (stop n) (s ++ drop (sub64 (add64 right 1) n.beg) n.s)
          ns h1 (omega arith) (omega arith)
          (omega (
            arith,
            h,
            length-append s (drop (sub64 (add64 right 1) n.beg) n.s),
            length-drop (sub64 (add64 right 1) n.beg) n.s,
          ))
          c rest)
  where
    step :
        (o : Overlap)
        → overlap left right n ≡ o
        → Tells left past n o
        → Merges (stop n) hi left past s ns (merge left right s ns)
        → ((n.beg < left) × (left ≤ stop n) × (stop n < past)
            → Merges
                (stop n)
                hi
                n.beg
                past
                (take (sub64 left n.beg) n.s ++ s)
                ns
                (merge n.beg right (take (sub64 left n.beg) n.s ++ s) ns))
        → ((left < n.beg) × (n.beg ≤ past) × (past < stop n)
            → Merges
                (stop n)
                hi
                left
                (stop n)
                (s ++ drop (sub64 (add64 right 1) n.beg) n.s)
                ns
                (merge left n.end (s ++ drop (sub64 (add64 right 1) n.beg) n.s) ns))
        → Merges lo hi left past s (n ∷ ns) (merge left right s (n ∷ ns))
    step irrelevant e t same grow_left grow_right =
        rw (e, merge) (keep-Merges lo hi left past s n ns _ a b c (omega arith) t same)
    step covers e t same grow_left grow_right =
        rw (e, merge) (omega arith, refl, λ i p q. ground arith)
    step inside e t same grow_left grow_right =
        rw (e, merge)
          (absorb-Merges lo hi left left past past s s n ns _ a b (inside-Absorbs left past s n t)
            same)
    step before e t same grow_left grow_right =
        rw (e, merge)
          (absorb-Merges lo hi left n.beg past past s _ n ns _ a b
            (before-Absorbs left past s n (omega arith) h4 t) (grow_left t))
    step after e t same grow_left grow_right =
        rw (e, merge)
          (rw (substr_from-ok n.s (sub64 (add64 right 1) n.beg) (omega arith)) (
            absorb-Merges lo hi left left past (stop n) s _ n ns _ a b
              (after-Absorbs left right past s n (omega arith) h3 h4 t) (grow_right t)))
    step impossible e t same grow_left grow_right = absurd t
