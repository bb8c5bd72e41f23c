-- ===== src/Link/Interface/Times.antt =====
-- The times of the maps of libsponge/network_interface.cc, as `tick` reads them.
use sponge_2021fall.Common.{
  ℕ, ◌≡◌, ◌≤◌, ◌<◌, ◌+◌, refl, ap, ◌∙◌, sym, subst, arith, true, false, Bool, Option, none, some,
  ◌^◌, if◌then◌else◌, leb, add64, ◌↔◌, inl, inr,
}
use sponge_2021fall.Common.Assoc.{
  Assoc, find, erase_if, IsMap, unless, find-erase_if, erase_if-IsMap,
}
use sponge_2021fall.Wire.Ethernet.{EthernetAddress}
use sponge_2021fall.Link.Interface.{NetworkInterface, tick, arp_valid_time, arp_req_blocking_time}
use sponge_2021fall.Link.Interface.Follows.{Follows}
use sponge_2021fall.Link.Interface.Life.{Step, Steps, none_yet, one_more, Step-view}

-- In a map of times, the entry of `k` was made at the time `t`, which is past.
pub record Since {V : Type 0} (time : V → ℕ) (k : ℕ) (v : V) (now : ℕ) (m : Assoc V) : Type 0 where
  pub found : find k m ≡ some v
  pub unique : IsMap m
  pub past : time v ≤ now

-- An entry that is younger than `valid` survives the loop of `tick`.
erase_if-Since :
    {V : Type 0} (time : V → ℕ) (valid k : ℕ) (v : V) (before now : ℕ) (m : Assoc V)
    → Since time k v before m
    → before ≤ now
    → now + valid < 2 ^ 64
    → now < time v + valid
    → Since time k v now (erase_if (λ (e : V). leb (add64 (time e) valid) now) m)
erase_if-Since time valid k v before now m s h b young = record {
  found =
      find-erase_if _ k m s.unique ∙ ap (unless _) s.found ∙ ground (arith, young, b, h, s.past);
  unique = erase_if-IsMap _ m s.unique;
  past = omega (arith, s.past);
}

abbrev pub Blocked : ℕ → ℕ → NetworkInterface → Type 0
Blocked ip t n = Since (λ (since : ℕ). since) ip t n.current_time n.blocking_mapping

abbrev pub Known : ℕ → EthernetAddress × ℕ → NetworkInterface → Type 0
Known ip e n = Since (λ (e : EthernetAddress × ℕ). e.1) ip e n.current_time n.mapping

pub Follows-Blocked :
    (ip t : ℕ) (n m : NetworkInterface) → Follows n m → Blocked ip t n → Blocked ip t m
Follows-Blocked ip t n m f s = record {
  found = f.blocked ip t s.found;
  unique = f.blocking_map s.unique;
  past = omega (arith, s.past, f.time);
}

pub Follows-Known :
    (ip : ℕ) (e : EthernetAddress × ℕ) (n m : NetworkInterface)
    → Follows n m
    → Known ip e n
    → Known ip e m
Follows-Known ip e n m f s = record {
  found = f.known ip e s.found;
  unique = f.mapping_map s.unique;
  past = omega (arith, s.past, f.time);
}

-- The tick that forgets nothing young.
tick-Blocked :
    (ip t ms : ℕ) (n : NetworkInterface)
    → n.current_time + ms + 2 ^ 16 < 2 ^ 64
    → n.current_time + ms < t + arp_req_blocking_time
    → Blocked ip t n
    → Blocked ip t (tick n ms)
unfolding tick
tick-Blocked ip t ms n b h s =
    let now : add64 n.current_time ms ≡ n.current_time + ms = omega (arith, b) in
    erase_if-Since _ arp_req_blocking_time ip t n.current_time (add64 n.current_time ms)
      n.blocking_mapping s (omega (arith, now)) (omega (arith, now, b)) (omega (arith, now, h))

tick-Known :
    (ip ms : ℕ) (e : EthernetAddress × ℕ) (n : NetworkInterface)
    → n.current_time + ms + 2 ^ 16 < 2 ^ 64
    → n.current_time + ms < e.1 + arp_valid_time
    → Known ip e n
    → Known ip e (tick n ms)
unfolding tick
tick-Known ip ms e n b h s =
    let now : add64 n.current_time ms ≡ n.current_time + ms = omega (arith, b) in
    erase_if-Since _ arp_valid_time ip e n.current_time (add64 n.current_time ms) n.mapping s
      (omega (arith, now)) (omega (arith, now, b)) (omega (arith, now, h))

tick-time :
    (n : NetworkInterface) (ms : ℕ)
    → n.current_time + ms + 2 ^ 16 < 2 ^ 64
    → (tick n ms).current_time ≡ n.current_time + ms
unfolding tick
tick-time n ms b = omega arith

Step-time : (n m : NetworkInterface) → Step n m → n.current_time ≤ m.current_time
Step-time n m step = elim (Step-view n m step) [
  | inl f ↦ omega (arith, f.time)
  | inr (ms, e, b) ↦
      omega (arith, ap (λ (k : NetworkInterface). k.current_time) e, tick-time n ms b)
]

-- A property that calls keep, and that time keeps for a while.
Step-Blocked :
    (ip t : ℕ) (n m : NetworkInterface)
    → Step n m
    → m.current_time < t + arp_req_blocking_time
    → Blocked ip t n
    → Blocked ip t m
Step-Blocked ip t n m step h s = elim (Step-view n m step) [
  | inl f ↦ Follows-Blocked ip t n m f s
  | inr (ms, e, b) ↦ subst (Blocked ip t) (sym e) (
      tick-Blocked ip t ms n b
        (omega (arith, h, ap (λ (k : NetworkInterface). k.current_time) e, tick-time n ms b)) s)
]

Step-Known :
    (ip : ℕ) (a : EthernetAddress × ℕ) (n m : NetworkInterface)
    → Step n m
    → m.current_time < a.1 + arp_valid_time
    → Known ip a n
    → Known ip a m
Step-Known ip a n m step h s = elim (Step-view n m step) [
  | inl f ↦ Follows-Known ip a n m f s
  | inr (ms, e, b) ↦ subst (Known ip a) (sym e) (
      tick-Known ip ms a n b
        (omega (arith, h, ap (λ (k : NetworkInterface). k.current_time) e, tick-time n ms b)) s)
]

pub Steps-Blocked :
    (ip t : ℕ) (n m : NetworkInterface)
    → Steps n m
    → m.current_time < t + arp_req_blocking_time
    → Blocked ip t n
    → Blocked ip t m
Steps-Blocked ip t n m (none_yet _) h s = s
Steps-Blocked ip t n m (one_more _ k _ steps step) h s =
    Step-Blocked ip t k m step h
      (Steps-Blocked ip t n k steps (omega (arith, h, Step-time k m step)) s)

pub Steps-Known :
    (ip : ℕ) (a : EthernetAddress × ℕ) (n m : NetworkInterface)
    → Steps n m
    → m.current_time < a.1 + arp_valid_time
    → Known ip a n
    → Known ip a m
Steps-Known ip a n m (none_yet _) h s = s
Steps-Known ip a n m (one_more _ k _ steps step) h s =
    Step-Known ip a k m step h (Steps-Known ip a n k steps (omega (arith, h, Step-time k m step)) s)

unless-some_of :
    {V : Type 0} (p : V → Bool) (w v : V) (b : Bool)
    → p w ≡ b
    → ((if b then none else some w) ≡ some v) ↔ ((some w ≡ some v) × (p v ≡ false))
unless-some_of p w v true t =
    (λ h. absurd (cc h), λ h. absurd (let e : some w ≡ some v = h.0 in let f = h.1 in cc (e, f, t)))
unless-some_of p w v false f = (λ h. (h, cc (h, f)), λ h. h.0)

unless-some :
    {V : Type 0} (p : V → Bool) (o : Option V) (v : V)
    → (unless p o ≡ some v) ↔ ((o ≡ some v) × (p v ≡ false))
unless-some p none v = (λ h. (h, absurd (cc h)), λ h. h.0)
unless-some p (some w) v = unless-some_of p w v (p w) refl

-- After a tick the address of a host is known exactly if it was known and the entry is younger than
-- thirty seconds. The entries are for different hosts, the entry in question was made in the past,
-- and time does not overflow.
pub find-tick :
    (n : NetworkInterface) (ms ip : ℕ) (e : EthernetAddress × ℕ)
    → IsMap n.mapping
    → e.1 ≤ n.current_time
    → n.current_time + ms + 2 ^ 16 < 2 ^ 64
    → (find ip (tick n ms).mapping ≡ some e)
      ↔ ((find ip n.mapping ≡ some e) × (n.current_time + ms < e.1 + 30000))
unfolding tick
find-tick n ms ip e unique past b =
    let now : add64 n.current_time ms ≡ n.current_time + ms = omega (arith, b) in
    let stays =
      find-erase_if
        (λ (e : EthernetAddress × ℕ). leb (add64 e.1 arp_valid_time) (add64 n.current_time ms)) ip
        n.mapping unique in
    let (young, kept) =
      unless-some
        (λ (e : EthernetAddress × ℕ). leb (add64 e.1 arp_valid_time) (add64 n.current_time ms))
        (find ip n.mapping) e in
    (
      λ h. ((young (sym stays ∙ h)).0, ground (arith, (young (sym stays ∙ h)).1, now, past, b)),
      λ h. stays ∙ kept (h.0, ground (arith, h.1, now, past, b)),
    )
