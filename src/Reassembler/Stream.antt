-- ===== src/Reassembler/Stream.antt =====
-- Substrings of a byte stream that is given by the byte at each index.
use sponge_2021fall.Common.{
  ℕ, zero, suc, ◌+◌, ◌≤◌, ◌≡◌, List, [], ◌∷◌, ◌++◌, length, take, drop, arith, subst,
}

-- `s` is what the stream `f` holds from index `b` on.
abbrev pub Carries : (ℕ → ℕ) → ℕ → List ℕ → Type 0
Carries f b [] = Unit {0}
Carries f b (x ∷ s) = (x ≡ f b) × Carries f (suc b) s

pub Carries-append :
    (f : ℕ → ℕ) (b c : ℕ) (s t : List ℕ)
    → c ≡ b + length s
    → Carries f b s
    → Carries f c t
    → Carries f b (s ++ t)
Carries-append f b c [] t e hs ht = subst (λ k. Carries f k t) (omega arith) ht
Carries-append f b c (x ∷ s) t e hs ht =
    (hs.0, Carries-append f (suc b) c s t (omega arith) hs.1 ht)

pub Carries-take : (f : ℕ → ℕ) (b n : ℕ) (s : List ℕ) → Carries f b s → Carries f b (take n s)
Carries-take f b zero s h = tt
Carries-take f b (suc n) [] h = tt
Carries-take f b (suc n) (x ∷ s) h = (h.0, Carries-take f (suc b) n s h.1)

pub Carries-drop :
    (f : ℕ → ℕ) (b c n : ℕ) (s : List ℕ)
    → n ≤ length s
    → c ≡ b + n
    → Carries f b s
    → Carries f c (drop n s)
Carries-drop f b c zero s h e hs = subst (λ k. Carries f k s) (omega arith) hs
Carries-drop f b c (suc n) [] h e hs = tt
Carries-drop f b c (suc n) (x ∷ s) h e hs =
    Carries-drop f (suc b) c n s (omega arith) (omega arith) hs.1
