-- ===== src/Simulator/Exchange.antt =====
-- The wires of apps/network_simulator.cc.
use sponge_2021fall.Common.{
  ℕ, zero, suc, ◌≡◌, refl, ap, ◌∙◌, List, [], ◌∷◌, ◌++◌, drop, length, Result, ok, throw, ◌>>=◌,
  Returns, bind-Returns, map-Returns, Option, none, some, subst,
}
use sponge_2021fall.Wire.Buffer.{concatenate}
use sponge_2021fall.Wire.Ethernet.{EthernetFrame}
use sponge_2021fall.Wire.Datagram.{Ipv4Datagram}
use sponge_2021fall.Link.Interface.{NetworkInterface}
use sponge_2021fall.Link.Interface
use sponge_2021fall.Link.Interface.Follows.{Extends, Extends_refl, Extends_trans}
use sponge_2021fall.Link.Interface.Calls.{recv_frame-Continues}
use sponge_2021fall.Link.Router.{AsyncInterface, recv_frame, push_received}
use sponge_2021fall.Simulator.Network.{
  clear, joined, deliver, frames_out, clear_sent, exchange_frames,
}

pushed :
    (i : AsyncInterface) (o : Option Ipv4Datagram) (n : NetworkInterface)
    → Extends i.base n
    → Extends i.base (push_received (record i { base = n }) o).base
unfolding push_received
pushed i none n f = f
pushed i (some dgram) n f = f

recv_frame-Extends :
    (i : AsyncInterface) (frame : EthernetFrame)
    → Returns (λ (j : AsyncInterface). Extends i.base j.base) (recv_frame i frame)
unfolding recv_frame
recv_frame-Extends i frame =
    bind-Returns (λ (r : Option Ipv4Datagram × NetworkInterface). Extends i.base r.1) _
      (Interface.recv_frame i.base frame) _
      (map-Returns _ _ (Interface.recv_frame i.base frame) (recv_frame-Continues i.base frame)
        (λ r f. f.queued))
      (λ r f. pushed i r.0 r.1 f)

deliver-Extends :
    (frames : List EthernetFrame) (i : AsyncInterface)
    → Returns (λ (j : AsyncInterface). Extends i.base j.base) (deliver frames i)
unfolding deliver
deliver-Extends [] i = Extends_refl i.base
deliver-Extends (frame ∷ frames) i =
    bind-Returns (λ (j : AsyncInterface). Extends i.base j.base) _ (recv_frame i (joined frame)) _
      (recv_frame-Extends i (joined frame))
      (λ j e.
        map-Returns _ (λ (k : AsyncInterface). Extends i.base k.base) (deliver frames j)
          (deliver-Extends frames j) (λ k f. Extends_trans i.base j.base k.base e f))

drop-drop : (n : ℕ) (xs : List EthernetFrame) → drop n (drop 1 xs) ≡ drop (suc n) xs
drop-drop zero [] = refl
drop-drop zero (x ∷ xs) = refl
drop-drop (suc n) [] = refl
drop-drop (suc n) (x ∷ xs) = refl

clear-drop :
    (queue1 queue2 : List EthernetFrame) → clear queue1 queue2 ≡ drop (length queue1) queue2
unfolding clear
clear-drop [] queue2 = refl
clear-drop (frame ∷ queue1) queue2 =
    clear-drop queue1 (drop 1 queue2) ∙ drop-drop (length queue1) queue2

drop-append_self : (xs ys : List EthernetFrame) → drop (length xs) (xs ++ ys) ≡ ys
drop-append_self [] ys = refl
drop-append_self (x ∷ xs) ys = drop-append_self xs ys

clear-append : (xs ys zs : List EthernetFrame) → zs ≡ xs ++ ys → clear xs zs ≡ ys
clear-append xs ys zs e = clear-drop xs zs ∙ ap (drop (length xs)) e ∙ drop-append_self xs ys

abbrev or_else : AsyncInterface → Result AsyncInterface → AsyncInterface
or_else i (ok j) = j
or_else i (throw z) = i

-- An interface that receives some frames, each joined to one buffer, once and in their order.
pub data Receives : List EthernetFrame → AsyncInterface → AsyncInterface → Type 0 where
  received_all : (i : AsyncInterface) → Receives [] i i
  received :
      (frame : EthernetFrame) (frames : List EthernetFrame) (i j k : AsyncInterface)
      → recv_frame i (record { header = frame.header; payload = concatenate frame.payload ∷ [] })
        ≡ ok j
      → Receives frames j k
      → Receives (frame ∷ frames) i k

first_received :
    (frame : EthernetFrame) (frames : List EthernetFrame) (i k : AsyncInterface)
    (r : Result AsyncInterface)
    → ((j : AsyncInterface) → deliver frames j ≡ ok k → Receives frames j k)
    → recv_frame i (joined frame) ≡ r
    → (r >>= λ (j : AsyncInterface). deliver frames j) ≡ ok k
    → Receives (frame ∷ frames) i k
first_received frame frames i k (ok j) rest p e = received frame frames i j k p (rest j e)
first_received frame frames i k (throw z) rest p e = cc

deliver-Receives :
    (frames : List EthernetFrame) (i k : AsyncInterface)
    → deliver frames i ≡ ok k
    → Receives frames i k
unfolding deliver
deliver-Receives [] i k e = subst (Receives [] i) (ap (or_else i) e) (received_all i)
deliver-Receives (frame ∷ frames) i k e =
    first_received frame frames i k (recv_frame i (joined frame)) (λ j. deliver-Receives frames j k)
      refl e

-- An interface that got `frames`, and was left with what it had to answer.
pub record Got (frames : List EthernetFrame) (i j : AsyncInterface) : Type 0 where
  pub after : AsyncInterface
  pub delivered : Receives frames i after
  pub answers : List EthernetFrame
  pub queued : frames_out after ≡ frames_out i ++ answers
  pub left : j ≡ record after { base = record (after.base) { frames_out = answers } }

deliver-Got :
    (frames : List EthernetFrame) (i after : AsyncInterface)
    → deliver frames i ≡ ok after
    → Got frames i (clear_sent (frames_out i) after)
deliver-Got frames i after e =
    let (answers, queued) =
      subst (Returns (λ (j : AsyncInterface). Extends i.base j.base)) e
        (deliver-Extends frames i) in
    record {
      after = after;
      delivered = deliver-Receives frames i after e;
      answers = answers;
      queued = queued;
      left =
          ap (λ frames. record after { base = record (after.base) { frames_out = frames } })
            (clear-append (frames_out i) answers (frames_out after) queued);
    }

abbrev returned :
    AsyncInterface × AsyncInterface
    → Result (AsyncInterface × AsyncInterface)
    → AsyncInterface × AsyncInterface
returned p (ok v) = v
returned p (throw z) = p

-- The two deliveries of an exchange.
exchanged :
    (x y x' y' : AsyncInterface) (ry rx : Result AsyncInterface)
    → deliver (frames_out x) y ≡ ry
    → deliver (frames_out y) x ≡ rx
    → (let both : Result (AsyncInterface × AsyncInterface) = ry >>= λ (b : AsyncInterface).
          rx >>= λ (a : AsyncInterface).
          ok (clear_sent (frames_out x) a, clear_sent (frames_out y) b) in
        both ≡ ok (x', y'))
    → Got (frames_out y) x x' × Got (frames_out x) y y'
exchanged x y x' y' (throw z) rx p q e = cc
exchanged x y x' y' (ok b) (throw z) p q e = cc
exchanged x y x' y' (ok b) (ok a) p q e =
    let same = ap (returned (x', y')) e in
    (
      subst (Got (frames_out y) x) (ap (λ v. v.0) same) (deliver-Got (frames_out y) x a q),
      subst (Got (frames_out x) y) (ap (λ v. v.1) same) (deliver-Got (frames_out x) y b p),
    )

-- If the exchange throws no exception, each end of a wire receives every frame that the other had
-- queued, once and in order, with its payload in one buffer, and none of its own. What is queued
-- after the exchange are the answers to them, and no frame is lost: each end is as receiving them
-- has left it, except that the frames that it has sent are gone from its queue.
pub exchange_frames-Got :
    (x y x' y' : AsyncInterface)
    → exchange_frames x y ≡ ok (x', y')
    → Got (frames_out y) x x' × Got (frames_out x) y y'
unfolding exchange_frames
exchange_frames-Got x y x' y' e =
    exchanged x y x' y' (deliver (frames_out x) y) (deliver (frames_out y) x) refl refl e
