-- ===== src/Udp/Tenth.antt =====
-- The tenth packet of a group: what is passed on holds the largest samples of the ten.
use zynq_lwip_frtos.Base.{
  ℕ, ◌+◌, ◌≡◌, refl, sym, ap, ◌∙◌, inl, inr, some, some_inj, false, List, [], ◌∷◌, ◌++◌, arith,
  length, ◌==◌, ne→==, Option-cases, ◌>>=◌, >>=-eq-some,
}
use zynq_lwip_frtos.Udp.Merge.{merge}
use zynq_lwip_frtos.Udp.Group.{AllBytes}
use zynq_lwip_frtos.Udp.Total.{sizes}
use zynq_lwip_frtos.Udp.Ownership.{after, receive-after}
use zynq_lwip_frtos.Udp.Peak.{AllFitting, Peaks, group-Peaks}
use zynq_lwip_frtos.Udp.Task.{
  Pbuf, Answers, Call, pbuf_free, pass_on, send_only, merge_packet, Parser, initial, count, receive,
  receive_all,
}

-- The kept packet is the one that the last calls pass on.
pub record Passes (r : Answers) (s : Parser) (kept : Pbuf) : Type 0 where
  pub before : List Call
  pub calls_end : s.calls ≡ before ++ (pass_on kept r ++ send_only kept r)

after-calls :
    (p kept : Pbuf) (r : Answers) (s : Parser)
    → s.counter_of_packets ≡ 10
    → (count (after p kept r s)).calls
      ≡ (s.calls ++ pbuf_free p.address ∷ []) ++ (pass_on kept r ++ send_only kept r)
after-calls p kept r s h = rw h refl

tenth-Passes :
    (p : Pbuf) (r : Answers) (s s' : Parser) (kept : Pbuf)
    → s.counter_of_packets ≡ 10
    → receive p r s ≡ some s'
    → s'.old_pbuf ≡ some kept
    → Passes r s' kept
unfolding receive merge_packet
tenth-Passes p r s s' kept h e k =
    let later : (s.counter_of_packets == 1) ≡ false = ne→== _ _ (λ h'. omega (arith, h)) in
    let (old, e0, e1) = >>=-eq-some s.old_pbuf _ (rw later at e) in
    let (t, e2, e3) = >>=-eq-some (merge_packet p old r s) _ e1 in
    let (merged, e4, e5) = >>=-eq-some (merge p.packet old.packet) _ e2 in
    let is_after : count (after p (record old { packet = merged }) r s) ≡ s' =
      some_inj (sym (receive-after p old r s merged later e0 e4) ∙ e) in
    let same_kept : record old { packet = merged } ≡ kept =
      some_inj (ap (λ x. x.old_pbuf) is_after ∙ k) in
    record {
      before = s.calls ++ pbuf_free p.address ∷ [];
      calls_end =
          ap (λ x. x.calls) (sym is_after)
          ∙ after-calls p (record old { packet = merged }) r s h
          ∙ ap (λ b. (s.calls ++ pbuf_free p.address ∷ []) ++ (pass_on b r ++ send_only b r))
              same_kept;
    }

receive_all-append :
    (xs ys : List (Pbuf × Answers)) (s : Parser)
    → receive_all (xs ++ ys) s ≡ (receive_all xs s >>= λ t. receive_all ys t)
unfolding receive_all
receive_all-append [] ys s = refl
receive_all-append ((p, r) ∷ xs) ys s = elim (Option-cases (receive p r s)) [
  | inl e ↦ rw e refl
  | inr (t, e) ↦ rw e (receive_all-append xs ys t)
]

AllFitting-append :
    (ls : List ℕ) (t : ℕ) (ps qs : List (Pbuf × Answers))
    → AllFitting ls t (ps ++ qs)
    → AllFitting ls t ps
unfolding AllFitting
AllFitting-append ls t [] qs fs = tt
AllFitting-append ls t ((p, r) ∷ ps) qs (f, fs) = (f, AllFitting-append ls t ps qs fs)

length-snoc :
    (ps : List (Pbuf × Answers)) (x : Pbuf × Answers) → length (ps ++ x ∷ []) ≡ length ps + 1
length-snoc [] x = refl
length-snoc (p ∷ ps) x = omega (arith, length-snoc ps x)

-- A group of ten packets, of bytes, that lwIP hands over in buffers of its pool, the nine later ones of one
-- length and all with buffers of the same memory: the task merges them into a packet at the address of
-- the first one, of which each word that the loops visit is, by value, the largest of the words that the
-- ten packets have in its place, and its last calls pass this packet on.
pub receive_all-Peaks :
    (ls : List ℕ) (total_len : ℕ) (first last : Pbuf) (r0 r : Answers) (ps : List (Pbuf × Answers))
    → AllFitting ls total_len (ps ++ (last, r) ∷ [])
    → sizes first.packet.chain ≡ ls
    → AllBytes first.packet.chain
    → length ps ≡ 8
    → (s : Parser) × (receive_all ((first, r0) ∷ (ps ++ (last, r) ∷ [])) initial ≡ some s)
      × (peaks : Peaks ls total_len first (ps ++ (last, r) ∷ []) s) × Passes r s peaks.kept
unfolding receive_all receive
receive_all-Peaks ls t first last r0 r ps fs shape bytes h =
    let one = count (record initial { old_pbuf = some first }) in
    let n : length (ps ++ (last, r) ∷ []) ≡ 9 = omega (arith, h, length-snoc ps (last, r)) in
    let (s, e, g, c) =
      group-Peaks ls t first (ps ++ (last, r) ∷ []) one fs refl shape bytes (λ h'. omega arith)
        (omega (arith, n)) in
    let (mid, e', g', c') =
      group-Peaks ls t first ps one (AllFitting-append ls t ps _ fs) refl shape bytes
        (λ h'. omega arith) (omega (arith, h)) in
    let ten : mid.counter_of_packets ≡ 10 = omega (arith, h, c' (omega (arith, h))) in
    let (s'', e'', e3) = >>=-eq-some (receive last r mid) _ (
      sym (ap (λ o. o >>= λ t'. receive_all ((last, r) ∷ []) t') e')
      ∙ sym (receive_all-append ps ((last, r) ∷ []) one)
      ∙ e) in
    (s, e, g, tenth-Passes last r mid s g.kept ten (e'' ∙ e3) g.is_kept)
