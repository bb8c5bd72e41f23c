-- ===== src/Link/Interface/Pending.antt =====
-- The datagrams that wait for an address in libsponge/network_interface.cc.
use sponge_2021fall.Common.{
  ℕ, ◌≡◌, refl, ap, ap₂, ◌∙◌, sym, arith, true, none, some, List, [], ◌∷◌, ◌++◌, append_assoc,
  append-nil, ok, throw, Result, ◌>>=◌, if◌then◌else◌, ◌==◌, Bool-cases, inl, inr,
}
use sponge_2021fall.Common.Assoc.{find, insert, find-insert_new}
use sponge_2021fall.Address.{Address, ipv4_numeric}
use sponge_2021fall.Wire.Buffer.{BufferList}
use sponge_2021fall.Wire.Ethernet.{EthernetAddress, EthernetFrame, type_ipv4}
use sponge_2021fall.Wire.Arp.{ArpMessage, opcode_reply}
use sponge_2021fall.Wire.Datagram.{Ipv4Datagram}
use sponge_2021fall.Wire.Datagram
use sponge_2021fall.Link.Interface.{
  NetworkInterface, send_datagram, receive_arp, learn, flush_pending, take_pending, send_each,
  push_frame, frame_to,
}

-- The datagrams for a next hop, and the others, in their order.
abbrev pub for_hop : ℕ → List (Ipv4Datagram × Address) → List Ipv4Datagram
for_hop ip [] = []
for_hop ip ((dgram, next_hop) ∷ list) =
    let rest = for_hop ip list in if ipv4_numeric next_hop == ip then dgram ∷ rest else rest

abbrev pub not_for_hop : ℕ → List (Ipv4Datagram × Address) → List (Ipv4Datagram × Address)
not_for_hop ip [] = []
not_for_hop ip ((dgram, next_hop) ∷ list) =
    let rest = not_for_hop ip list in
    if ipv4_numeric next_hop == ip then rest else (dgram, next_hop) ∷ rest

-- One frame for each datagram, unless one of them throws.
abbrev pub frames_of :
    EthernetAddress → EthernetAddress → List Ipv4Datagram → Result (List EthernetFrame)
frames_of src dst [] = ok []
frames_of src dst (dgram ∷ list) = Datagram.serialize dgram >>= λ (payload : BufferList).
    frames_of src dst list >>= λ (frames : List EthernetFrame). ok (
      record { header = record { dst = dst; src = src; type = type_ipv4 }; payload = payload }
      ∷ frames)

-- The frames at the end of the queue.
abbrev pub push_frames : NetworkInterface → List EthernetFrame → NetworkInterface
push_frames n frames = record n { frames_out = n.frames_out ++ frames }

-- A list whose datagrams are all for one next hop.
abbrev AllFor : ℕ → List (Ipv4Datagram × Address) → Type 0
AllFor ip [] = Unit {0}
AllFor ip ((dgram, next_hop) ∷ list) = (ipv4_numeric next_hop ≡ ip) × AllFor ip list

abbrev datagrams : List (Ipv4Datagram × Address) → List Ipv4Datagram
datagrams [] = []
datagrams ((dgram, next_hop) ∷ list) = dgram ∷ datagrams list

take_pending-eq :
    (ip : ℕ) (list : List (Ipv4Datagram × Address))
    → (datagrams (take_pending ip list).0 ≡ for_hop ip list)
      × ((take_pending ip list).1 ≡ not_for_hop ip list)
      × AllFor ip (take_pending ip list).0
unfolding take_pending
take_pending-eq ip [] = (refl, refl, tt)
take_pending-eq ip ((dgram, next_hop) ∷ list) =
    let (taken, kept, all) = take_pending-eq ip list in
    elim (Bool-cases (ipv4_numeric next_hop == ip)) [
      | inl t ↦ rw (t) (ap (λ l. dgram ∷ l) taken, kept, (ground (arith, t), all))
      | inr f ↦ rw (f) (taken, ap (λ l. (dgram, next_hop) ∷ l) kept, all)
    ]

send_known :
    (n : NetworkInterface) (dgram : Ipv4Datagram) (next_hop : Address) (ip t : ℕ)
    (dst : EthernetAddress)
    → find ip n.mapping ≡ some (dst, t)
    → ipv4_numeric next_hop ≡ ip
    → send_datagram n dgram next_hop ≡ (
        Datagram.serialize dgram >>= λ (payload : BufferList).
        ok (push_frame n (frame_to n dst type_ipv4 payload)))
unfolding send_datagram
send_known n dgram next_hop ip t dst h e =
    rw (send_datagram, ap (λ ip. find ip n.mapping) e ∙ h) refl

-- The frames one after another, or together.
join-lem :
    (n : NetworkInterface) (dst : EthernetAddress) (r : Result BufferList)
    (s : Result (List EthernetFrame)) (k : NetworkInterface → Result NetworkInterface)
    → ((m : NetworkInterface)
        → m.ethernet_address ≡ n.ethernet_address
        → m.mapping ≡ n.mapping
        → k m ≡ (s >>= λ (frames : List EthernetFrame). ok (push_frames m frames)))
    → (r >>= λ (payload : BufferList). ok (push_frame n (frame_to n dst type_ipv4 payload))) >>= k
      ≡ ((r >>= λ (payload : BufferList).
            s >>= λ (frames : List EthernetFrame). ok (frame_to n dst type_ipv4 payload ∷ frames))
          >>= λ (frames : List EthernetFrame). ok (push_frames n frames))
join-lem n dst (throw e) s k h = refl
join-lem n dst (ok payload) (throw e) k h =
    h (push_frame n (frame_to n dst type_ipv4 payload)) refl refl
join-lem n dst (ok payload) (ok frames) k h =
    let frame = frame_to n dst type_ipv4 payload in
    h (push_frame n frame) refl refl
    ∙ ap (λ out. ok (record n { frames_out = out })) (append_assoc n.frames_out (frame ∷ []) frames)

send_each-frames :
    (list : List (Ipv4Datagram × Address)) (n : NetworkInterface) (ip t : ℕ) (dst : EthernetAddress)
    → find ip n.mapping ≡ some (dst, t)
    → AllFor ip list
    → send_each n list ≡ (
        frames_of n.ethernet_address dst (datagrams list) >>= λ (frames : List EthernetFrame).
        ok (push_frames n frames))
unfolding send_each
send_each-frames [] n ip t dst h a =
    ap (λ out. ok (record n { frames_out = out })) (sym (append-nil n.frames_out))
send_each-frames ((dgram, next_hop) ∷ list) n ip t dst h (e, a) =
    rw (send_known n dgram next_hop ip t dst h e) (
      join-lem n dst (Datagram.serialize dgram) (frames_of n.ethernet_address dst (datagrams list))
        (λ m. send_each m list)
        (λ m same known.
          send_each-frames list m ip t dst (ap (find ip) known ∙ h) a
          ∙ ap
              (λ src. frames_of src dst (datagrams list) >>= λ (frames : List EthernetFrame).
                ok (push_frames m frames))
              same))

-- The reply of a host whose address was not known: its address is recorded with the time, and every
-- datagram that waits for it is sent there, each in a frame of its own and in the order in which
-- they were sent. The others stay on the list in their order. If a datagram cannot be serialized,
-- it throws.
pub receive_arp-reply :
    (n : NetworkInterface) (msg : ArpMessage)
    → msg.opcode ≡ opcode_reply
    → find msg.sender_ip_address n.mapping ≡ none
    → receive_arp n msg ≡ (
        frames_of n.ethernet_address msg.sender_ethernet_address
          (for_hop msg.sender_ip_address n.pending_list)
        >>= λ (frames : List EthernetFrame). ok (record n {
          mapping =
              insert msg.sender_ip_address (msg.sender_ethernet_address, n.current_time) n.mapping;
          pending_list = not_for_hop msg.sender_ip_address n.pending_list;
          frames_out = n.frames_out ++ frames;
        }))
unfolding receive_arp learn flush_pending
receive_arp-reply n msg e h =
    let ip = msg.sender_ip_address in
    let m : NetworkInterface = record n {
      mapping = insert ip (msg.sender_ethernet_address, n.current_time) n.mapping;
      pending_list = (take_pending ip n.pending_list).1;
    } in
    let (taken, kept, all) = take_pending-eq ip n.pending_list in
    let reply : (msg.opcode == opcode_reply) ≡ true = ground (arith, e) in
    let found = find-insert_new ip (msg.sender_ethernet_address, n.current_time) n.mapping h in
    rw (reply) (
      send_each-frames (take_pending ip n.pending_list).0 m ip n.current_time
        msg.sender_ethernet_address found all
      ∙ ap₂
          (λ list waiting.
            frames_of n.ethernet_address msg.sender_ethernet_address list
            >>= λ (frames : List EthernetFrame).
                ok (push_frames (record m { pending_list = waiting }) frames))
          taken kept)
