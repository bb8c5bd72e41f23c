-- ===== src/Socket/Receive.antt =====
-- What `UDPSocket::recv` of libsponge/util/socket.cc makes of a datagram.
use sponge_2021fall.Common.{
  ℕ, zero, suc, ◌≡◌, ◌≤◌, refl, ap, ◌∙◌, arith, List, [], ◌∷◌, ◌++◌, ◌-◌, length, take, drop, ltb,
  append-nil, length-append, take-all, if◌then◌else◌, ok, throw, runtime_error, Bool-cases, inl,
  inr,
}
use sponge_2021fall.Address.{Address}
use sponge_2021fall.FileDescriptor.{Descriptor, register_read}
use sponge_2021fall.Socket.{Datagrams, zeros, resize, recv}

-- What is left in a buffer into which a datagram is received: as many of its bytes as fit, and then
-- what was there.
abbrev pub overwritten : List ℕ → List ℕ → List ℕ
overwritten buffer datagram = take (length buffer) datagram ++ drop (length datagram) buffer

length-zeros : (n : ℕ) → length (zeros n) ≡ n
unfolding zeros
length-zeros zero = refl
length-zeros (suc n) = ap suc (length-zeros n)

length-resize_nil : (n : ℕ) → length (resize [] n) ≡ n
unfolding resize
length-resize_nil zero = length-zeros zero
length-resize_nil (suc n) = let e : suc n - 0 ≡ suc n = omega arith in rw (e) (length-zeros (suc n))

take-append_self : (s t : List ℕ) → take (length s) (s ++ t) ≡ s
take-append_self [] t = refl
take-append_self (x ∷ s) t = ap (λ l. x ∷ l) (take-append_self s t)

resize-overwritten :
    (buffer datagram : List ℕ)
    → length datagram ≤ length buffer
    → resize (overwritten buffer datagram) (length datagram) ≡ datagram
unfolding resize zeros
resize-overwritten buffer datagram small =
    let whole = take-all (length buffer) datagram small in
    let long : length datagram - length (overwritten buffer datagram) ≡ 0 =
      rw (whole) (omega (arith, length-append datagram (drop (length datagram) buffer))) in
    rw (long, whole)
      (ap (λ l. l ++ []) (take-append_self datagram (drop (length datagram) buffer))
        ∙ append-nil datagram)

module _ {W : Type 0} (net : Datagrams W) where
  -- A datagram is received whole or not at all. Where the system writes the datagram over the front
  -- of the buffer that it is given, as much of it as fits, and tells its whole length, `recv` gives
  -- all its bytes and no others with its source, and counts the reading, if they are at most `mtu`;
  -- else it throws.
  pub recv_lem :
      (d : Descriptor) (mtu : ℕ) (w v : W) (source : Address) (datagram : List ℕ)
      → ((buffer : List ℕ)
          → net.recvfrom d.fd_num buffer w
            ≡ ok (
              record {
                source = source;
                recv_len = length datagram;
                buffer = overwritten buffer datagram;
              },
              v,
            ))
      → recv net d mtu w ≡ (
          if ltb mtu (length datagram)
          then throw runtime_error
          else ok (record { source_address = source; payload = datagram }, register_read d, v))
  unfolding recv
  recv_lem d mtu w v source datagram h = elim (Bool-cases (ltb mtu (length datagram))) [
    | inl e ↦ rw (h (resize [] mtu), e) refl
    | inr e ↦
        let size : length (resize [] mtu) ≡ mtu = length-resize_nil mtu in
        let small : length datagram ≤ length (resize [] mtu) = ground (arith, e, size) in
        rw (h (resize [] mtu), e, resize-overwritten (resize [] mtu) datagram small) refl
  ]
