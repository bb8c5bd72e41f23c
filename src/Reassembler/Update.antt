-- ===== src/Reassembler/Update.antt =====
-- What the loops and the tail of `push_substring` in libsponge/stream_reassembler.cc do to the bytes
-- held, for a substring that is already cut to the window.
use sponge_2021fall.Common.{
  ℕ, Bool, List, length, ◌+◌, IsU64, ◌-◌, ◌≡◌, ◌≤◌, arith, ◌<◌, add64, true, ◌≢◌, refl, ok,
  Bool-cases, ◌∙◌, length-append, ◌==◌, inl, inr, Result, sub64, ◌>>=◌, throw,
}
use sponge_2021fall.ByteStream.{write}
use sponge_2021fall.ByteStream.Fifo.{write_all}
use mathlib.Core.Path.{subst₂, ap, sym, subst}
use sponge_2021fall.Reassembler.{covered, merged}
use sponge_2021fall.Reassembler.{
  Node, Reassembler, finish, store, insert, settle, assemble, Outcome, merge,
}
use sponge_2021fall.Reassembler.Stream.{Carries, Carries-append}
use sponge_2021fall.Reassembler.Nodes.{
  Separated, stored, insert-Separated, stored-insert, insert-AllCarry, Separated-past,
}
use sponge_2021fall.Reassembler.Merge.{Merged, Merges, merge-Merges}
use sponge_2021fall.Reassembler.Finish.{top, IsValid, Adds, finish-Adds}

-- A substring whose bytes are all stored adds nothing.
pub covered-Adds :
    (r : Reassembler) (s : List ℕ) (left past : ℕ) (ns : List Node)
    → IsValid r
    → ns ≡ r.list
    → ((i : ℕ) → left ≤ i → i < past → stored i r.list ≡ true)
    → Adds r s left past (record r { list = ns })
covered-Adds r s left past ns v e all = record {
  valid = record { output = v.output; nodes = rw e v.nodes };
  same_top = refl;
  known = λ i. rw e (ground (arith, all i));
  carried = λ f c h. record { back = h.back; buffered = h.buffered; nodes = rw e h.nodes };
}

-- A substring that does not continue the stream is stored.
insert-Adds :
    (r : Reassembler) (s : List ℕ) (left past left' right' : ℕ) (s' : List ℕ) (ns : List Node)
    → IsValid r
    → IsU64 (top r)
    → r.cur_index ≤ left
    → left' ≢ r.cur_index
    → Merged r.cur_index (top r) left past s r.list left' right' s' ns
    → Adds r s left past
        (record r { list = insert (record { s = s'; beg = left'; end = right' }) ns })
insert-Adds r s left past left' right' s' ns v h1 h2 h3 m =
    let n : Node = record { s = s'; beg = left'; end = right' } in
    record {
      valid = record {
        output = v.output;
        nodes =
            insert-Separated r.cur_index (top r) n ns (omega (arith, m.fits))
              (omega (arith, m.origin)) (omega (arith, m.origin, m.size, m.word, m.fits)) m.fits
              m.separated m.apart;
      };
      same_top = refl;
      known = λ i. ground (arith, stored-insert i n ns, m.known i);
      carried = λ f c h.
          let (cs, cn) = m.carried f c h.nodes in
          record { back = h.back; buffered = h.buffered; nodes = insert-AllCarry f n ns cs cn };
    }

-- A substring that continues the stream is written, and the stream has room for all of it.
write-Adds :
    (r : Reassembler) (s : List ℕ) (left past right' : ℕ) (s' : List ℕ) (ns : List Node)
    → IsValid r
    → IsU64 (top r)
    → Merged r.cur_index (top r) left past s r.list r.cur_index right' s' ns
    → ((write r.output s').0 ≡ length s')
      × Adds r s left past (record r {
        list = ns;
        output = (write r.output s').1;
        cur_index = add64 r.cur_index (length s');
      })
write-Adds r s left past right' s' ns v h1 m =
    let w = write_all r.output s' v.output (omega (arith, m.fits)) in
    let size : length (write r.output s').1.str ≡ length r.output.str + length s' =
      ap length w.1 ∙ length-append r.output.str s' in
    let index : add64 r.cur_index (length s') ≡ r.cur_index + length s' = omega (arith, m.fits) in
    (
      w.0,
      record {
        valid = record {
          output = w.3;
          nodes =
              subst₂ (λ lo hi. Separated lo hi ns) (sym index) (omega (arith, w.2, m.fits))
                (Separated-past r.cur_index (top r) (r.cur_index + length s') ns m.separated
                  m.apart);
        };
        same_top = omega (arith, w.2, m.fits);
        known = λ i. ground (arith, m.known i);
        carried = λ f c h.
            let (cs, cn) = m.carried f c h.nodes in
            record {
              back = omega (arith, h.back);
              buffered =
                  subst₂ (λ b t. Carries f b t) (omega (arith, h.back)) (sym w.1)
                    (Carries-append f (r.cur_index - length r.output.str) r.cur_index r.output.str
                      s' (omega (arith, h.back)) h.buffered cs);
              nodes = cn;
            };
      },
    )

store_written :
    (r : Reassembler) (s : List ℕ) (left right : ℕ) (b : Bool)
    → (left == r.cur_index) ≡ true
    → (write r.output s).0 ≡ length s
    → store r s left right b
      ≡ ok (
          finish
            (record r { output = (write r.output s).1; cur_index = add64 r.cur_index (length s) })
            b)
unfolding store
store_written r s left right b e n = ground arith

-- What follows the first loop does not throw, and adds the substring.
settle-Adds :
    (r : Reassembler) (s : List ℕ) (left past : ℕ) (b : Bool) (o : Outcome)
    → IsValid r
    → IsU64 (top r)
    → r.cur_index ≤ left
    → Merges r.cur_index (top r) left past s r.list (ok o)
    → (r' : Reassembler) × (settle r b o ≡ ok r') × Adds r s left past r'
unfolding settle
settle-Adds r s left past b (covered ns) v h1 h2 (h3, e, all) =
    (_, refl, finish-Adds r _ s left past b (covered-Adds r s left past ns v e all))
settle-Adds r s left past b (merged s' left' right' ns) v h1 h2 m =
    elim (Bool-cases (left' == r.cur_index)) [
      | inl e ↦
          let here : left' ≡ r.cur_index = ground arith in
          let w =
            write-Adds r s left past right' s' ns v h1
              (subst (λ l. Merged r.cur_index (top r) left past s r.list l right' s' ns) here m) in
          (
            _,
            store_written (record r { list = ns }) s' left' right' b e w.0,
            finish-Adds r _ s left past b w.1,
          )
      | inr e ↦ (
        _,
        rw (e, store),
        finish-Adds r _ s left past b
            (insert-Adds r s left past left' right' s' ns v h1 h2 (ground arith) m),
      )
    ]

-- From the first loop on: a substring that starts past the written bytes and ends in the window.
pub assemble-Adds :
    (r : Reassembler) (s : List ℕ) (left : ℕ) (b : Bool)
    → IsValid r
    → IsU64 (top r)
    → r.cur_index ≤ left
    → left + length s ≤ top r
    → (r' : Reassembler) × (assemble r s left b ≡ ok r') × Adds r s left (left + length s) r'
unfolding assemble
assemble-Adds r s left b v h1 h2 h3 =
    finish_merge (merge left (sub64 (add64 left (length s)) 1) s r.list) (
      merge-Merges r.cur_index (top r) left (sub64 (add64 left (length s)) 1) (left + length s) s
        r.list h1 (omega arith) (omega arith) refl h3 v.nodes)
  where
    finish_merge :
        (o : Result Outcome)
        → Merges r.cur_index (top r) left (left + length s) s r.list o
        → (r' : Reassembler) × ((o >>= settle r b) ≡ ok r') × Adds r s left (left + length s) r'
    finish_merge (ok o) m = settle-Adds r s left (left + length s) b o v h1 h2 m
    finish_merge (throw e) m = absurd m
