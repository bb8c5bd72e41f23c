-- ===== src/Link/Interface/Follows.antt =====
-- What no call of libsponge/network_interface.cc takes back before time passes.
use sponge_2021fall.Common.{
  ℕ, append-nil, append_assoc, ◌≡◌, ap, ◌∙◌, sym, subst, some, List, [], ok, throw, Result, ◌++◌,
  Returns,
}
use sponge_2021fall.Common.Assoc.{find, IsMap}
use sponge_2021fall.Wire.Ethernet.{EthernetFrame, EthernetAddress}
use sponge_2021fall.Link.Interface.{NetworkInterface}

-- The frames of `n`, and behind them others.
abbrev pub Extends : NetworkInterface → NetworkInterface → Type 0
Extends n m = (more : List EthernetFrame) × (m.frames_out ≡ n.frames_out ++ more)

-- No time passes, and what the maps know stays.
pub record Follows (n m : NetworkInterface) : Type 0 where
  pub time : m.current_time ≡ n.current_time
  pub address : m.ethernet_address ≡ n.ethernet_address
  pub blocked :
      (ip t : ℕ) → find ip n.blocking_mapping ≡ some t → find ip m.blocking_mapping ≡ some t
  pub known :
      (ip : ℕ) (e : EthernetAddress × ℕ) → find ip n.mapping ≡ some e → find ip m.mapping ≡ some e
  pub blocking_map : IsMap n.blocking_mapping → IsMap m.blocking_mapping
  pub mapping_map : IsMap n.mapping → IsMap m.mapping

-- Neither is a frame taken back.
pub record Continues (n m : NetworkInterface) : Type 0 where
  pub follows : Follows n m
  pub queued : Extends n m

pub Extends_refl : (n : NetworkInterface) → Extends n n
Extends_refl n = ([], sym (append-nil n.frames_out))

pub Extends_trans : (n m u : NetworkInterface) → Extends n m → Extends m u → Extends n u
Extends_trans n m u (more, e) (rest, f) =
    (more ++ rest, f ∙ ap (λ l. l ++ rest) e ∙ append_assoc n.frames_out more rest)

-- The same times and maps.
pub same-Follows :
    (n m : NetworkInterface)
    → m.current_time ≡ n.current_time
    → m.ethernet_address ≡ n.ethernet_address
    → m.blocking_mapping ≡ n.blocking_mapping
    → m.mapping ≡ n.mapping
    → Follows n m
same-Follows n m time address blocking mapping = record {
  time = time;
  address = address;
  blocked = λ ip t h. ap (find ip) blocking ∙ h;
  known = λ ip e h. ap (find ip) mapping ∙ h;
  blocking_map = λ h. subst IsMap (sym blocking) h;
  mapping_map = λ h. subst IsMap (sym mapping) h;
}

pub same-Continues :
    (n m : NetworkInterface)
    → m.current_time ≡ n.current_time
    → m.ethernet_address ≡ n.ethernet_address
    → m.blocking_mapping ≡ n.blocking_mapping
    → m.mapping ≡ n.mapping
    → Extends n m
    → Continues n m
same-Continues n m time address blocking mapping queued = record {
  follows = same-Follows n m time address blocking mapping;
  queued = queued;
}

trans-Follows : (n m u : NetworkInterface) → Follows n m → Follows m u → Follows n u
trans-Follows n m u f g = record {
  time = g.time ∙ f.time;
  address = g.address ∙ f.address;
  blocked = λ ip t h. g.blocked ip t (f.blocked ip t h);
  known = λ ip e h. g.known ip e (f.known ip e h);
  blocking_map = λ h. g.blocking_map (f.blocking_map h);
  mapping_map = λ h. g.mapping_map (f.mapping_map h);
}

pub trans-Continues : (n m u : NetworkInterface) → Continues n m → Continues m u → Continues n u
trans-Continues n m u f g = record {
  follows = trans-Follows n m u f.follows g.follows;
  queued = Extends_trans n m u f.queued g.queued;
}

-- After a call that returned.
pub after-Continues :
    (n m : NetworkInterface) (r : Result NetworkInterface)
    → Continues n m
    → Returns (Continues m) r
    → Returns (Continues n) r
after-Continues n m (ok u) f h = trans-Continues n m u f h
after-Continues n m (throw e) f h = tt
