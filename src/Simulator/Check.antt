-- ===== src/Simulator/Check.antt =====
-- What `Host::check` of apps/network_simulator.cc tests.
use sponge_2021fall.Common.{
  ℕ, ◌≡◌, ◌<◌, ◌↔◌, ◌+◌, refl, sym, ap, ◌∙◌, arith, true, List, [], ◌∷◌, ltb, if◌then◌else◌, Result,
  ok, throw, ◌>>=◌, Bool-cases, inl, inr, Yields, ok-Yields, bind-Yields,
}
use sponge_2021fall.Wire.Datagram.{Ipv4Datagram}
use sponge_2021fall.Link.Router.Sends.{Sendable, AllSendable, datagram-Yields}
use sponge_2021fall.Simulator.Host.{
  Host, shown, same_string, equal, expecting, remove_expectation, settle, none_left, check,
}

same_string_refl : (s : List ℕ) → same_string s s ≡ true
unfolding same_string
same_string_refl [] = refl
same_string_refl (x ∷ xs) = ground (arith, same_string_refl xs)

same_string-eq : (s t : List ℕ) → same_string s t ≡ true → s ≡ t
unfolding same_string
same_string-eq [] [] h = refl
same_string-eq [] (y ∷ ys) h = cc
same_string-eq (x ∷ xs) [] h = cc
same_string-eq (x ∷ xs) (y ∷ ys) h = ground (arith, same_string-eq xs ys)

all_settled :
    (h t : Host) (r : Result (List Ipv4Datagram))
    → (r >>= λ (rest : List Ipv4Datagram). none_left h rest) ≡ ok t
    → r ≡ ok []
unfolding none_left
all_settled h t (ok []) e = refl
all_settled h t (ok (x ∷ xs)) e = cc
all_settled h t (throw x) e = cc

module _ (f : Ipv4Datagram → List ℕ) where
  -- `f` gives the bytes that each datagram is serialized to.
  abbrev AllShown : List Ipv4Datagram → Type 0
  AllShown [] = Unit {0}
  AllShown (d ∷ ds) = (shown d ≡ ok (f d)) × AllShown ds

  abbrev pub one : List ℕ → List ℕ → ℕ
  one s a = if same_string s a then 1 else 0

  -- How many of the datagrams have the bytes `a`.
  abbrev pub count : List ℕ → List Ipv4Datagram → ℕ
  count a [] = 0
  count a (d ∷ ds) = one (f d) a + count a ds

  -- The same datagrams, each as often, in any order.
  abbrev pub SameDatagrams : List Ipv4Datagram → List Ipv4Datagram → Type 0
  SameDatagrams ds es = (a : List ℕ) → count a ds ≡ count a es

  equal-same_string :
      (x d : Ipv4Datagram)
      → shown x ≡ ok (f x)
      → shown d ≡ ok (f d)
      → equal x d ≡ ok (same_string (f x) (f d))
  unfolding equal
  equal-same_string x d p q = rw (p, q) refl

  expecting-count :
      (es : List Ipv4Datagram) (d : Ipv4Datagram)
      → AllShown es
      → shown d ≡ ok (f d)
      → expecting es d ≡ ok (ltb 0 (count (f d) es))
  unfolding expecting
  expecting-count [] d h q = ground arith
  expecting-count (x ∷ xs) d h q =
      rw (equal-same_string x d h.0 q) (ground (arith, expecting-count xs d h.1 q))

  remove-count :
      (es : List Ipv4Datagram) (d : Ipv4Datagram)
      → AllShown es
      → shown d ≡ ok (f d)
      → 0 < count (f d) es
      → (rest : List Ipv4Datagram) × (remove_expectation es d ≡ ok rest)
        × AllShown rest
        × ((a : List ℕ) → count a es ≡ one (f d) a + count a rest)
  unfolding remove_expectation
  remove-count [] d h q some_left = absurd (omega arith)
  remove-count (x ∷ xs) d h q some_left = elim (Bool-cases (same_string (f x) (f d))) [
    | inl e ↦ (
      xs,
      rw (equal-same_string x d h.0 q, e) refl,
      h.1,
      λ a. ap (λ s. one s a + count a xs) (same_string-eq (f x) (f d) e),
    )
    | inr e ↦
        let (rest, removed, ok_rest, counts) = remove-count xs d h.1 q (ground (arith, e)) in
        (
          x ∷ rest,
          rw (equal-same_string x d h.0 q, e, removed) refl,
          (h.0, ok_rest),
          λ a. omega (arith, counts a),
        )
  ]

  count_self : (d : Ipv4Datagram) (ds : List Ipv4Datagram) → 0 < count (f d) (d ∷ ds)
  count_self d ds = rw (same_string_refl (f d)) (omega arith)

  -- How often `a` is left.
  abbrev left_over : List ℕ → Result (List Ipv4Datagram) → ℕ
  left_over a (ok rest) = count a rest
  left_over a (throw e) = 0

  settle-counts :
      (ds es : List Ipv4Datagram)
      → AllShown ds
      → AllShown es
      → settle ds es ≡ ok []
      → SameDatagrams ds es
  unfolding settle
  settle-counts [] es h k e = λ a. sym (ap (λ r. left_over a r) e)
  settle-counts (d ∷ ds) es h k e = elim (Bool-cases (ltb 0 (count (f d) es))) [
    | inl some_left ↦
        let (rest, removed, k', counts) = remove-count es d k h.0 (ground (arith, some_left)) in
        λ a. omega (
          arith,
          counts a,
          settle-counts ds rest h.1 k' (rw (expecting-count es d k h.0, some_left, removed) at e) a,
        )
    | inr none_there ↦ let e' = rw (expecting-count es d k h.0, none_there) at e in cc
  ]

  counts-settle :
      (ds es : List Ipv4Datagram)
      → AllShown ds
      → AllShown es
      → SameDatagrams ds es
      → settle ds es ≡ ok []
  unfolding settle
  counts-settle [] [] h k same = refl
  counts-settle [] (e ∷ es) h k same = absurd (omega (arith, count_self e es, same (f e)))
  counts-settle (d ∷ ds) es h k same =
      let some_left : 0 < count (f d) es = omega (arith, count_self d ds, same (f d)) in
      let found : ltb 0 (count (f d) es) ≡ true = ground (arith, some_left) in
      let (rest, removed, k', counts) = remove-count es d k h.0 some_left in
      rw (expecting-count es d k h.0, found, removed)
        (counts-settle ds rest h.1 k' (λ a. omega (arith, counts a, same a)))

-- The bytes of a result.
abbrev string_of : Result (List ℕ) → List ℕ
string_of (ok s) = s
string_of (throw e) = []

-- The bytes that a datagram is serialized to.
abbrev pub bytes_of : Ipv4Datagram → List ℕ
bytes_of d = string_of (shown d)

Sendable-shown : (d : Ipv4Datagram) → Sendable d → shown d ≡ ok (bytes_of d)
unfolding shown
Sendable-shown d h =
    let s : Yields (λ (s : List ℕ). Unit {0}) (shown d) =
      bind-Yields _ _ _ _ (datagram-Yields d h) (λ bufs u. ok-Yields _ _ tt) in
    s.is_ok ∙ ap (λ r. ok (string_of r)) (sym s.is_ok)

AllSendable-AllShown : (ds : List Ipv4Datagram) → AllSendable ds → AllShown bytes_of ds
AllSendable-AllShown [] h = tt
AllSendable-AllShown (d ∷ ds) h = (Sendable-shown d h.0, AllSendable-AllShown ds h.1)

-- `check` passes exactly if the host has received the datagrams that it expected, each as often as it
-- was expected and in any order, where two datagrams are the same if they are serialized to the
-- same bytes. Then the queue and the expectations are empty, and nothing else has changed. It is
-- for datagrams of version 4 with a header of at least five words and the payload that their
-- length says.
pub check_lem :
    (h : Host)
    → AllSendable h.interface.datagrams_out
    → AllSendable h.expecting_to_receive
    → (check h
        ≡ ok (record h {
          interface = record (h.interface) { datagrams_out = [] };
          expecting_to_receive = [];
        }))
      ↔ SameDatagrams bytes_of h.interface.datagrams_out h.expecting_to_receive
unfolding check none_left
check_lem h k l =
    let received = AllSendable-AllShown h.interface.datagrams_out k in
    let expected = AllSendable-AllShown h.expecting_to_receive l in
    (
      (λ e.
          settle-counts bytes_of h.interface.datagrams_out h.expecting_to_receive received expected
            (all_settled h _ _ e)),
      (λ same.
          rw
            (counts-settle bytes_of h.interface.datagrams_out h.expecting_to_receive received
              expected same)
            refl),
    )
