-- ===== src/Pipeline/Packet.antt =====
-- What `udp_parse_task` does with one packet, by the addresses.
use zynq_lwip_frtos.Base.{
  ℕ, ◌+◌, ◌<◌, ◌≡◌, refl, sym, subst, ap, ◌∙◌, inl, inr, true, false, Option, none, some, some_inj,
  List, [], ◌∷◌, ◌++◌, arith, leb, ◌==◌, ==→eq, Bool-cases, occurs, >>=-eq-some, if◌then◌else◌,
}
use zynq_lwip_frtos.Udp.Merge.{merge}
use zynq_lwip_frtos.Udp.Task.{
  is_suspended, Pbuf, Answers, Call, pbuf_free, queue_send, udp_send, Parser, count, pass_on,
  send_only, merge_packet, receive,
}
use zynq_lwip_frtos.Udp.Ownership.{Agree, after, receive-after}
use zynq_lwip_frtos.Pipeline.{sends}

abbrev pub addresses : List Pbuf → List ℕ
addresses [] = []
addresses (b ∷ bs) = b.address ∷ addresses bs

-- The addresses that are freed.
abbrev pub freed : List Call → List ℕ
freed [] = []
freed (pbuf_free a ∷ cs) = a ∷ freed cs
freed (_ ∷ cs) = freed cs

-- The packet that `udp_parse_task` keeps, unless a new group begins.
abbrev pub kept_by : ℕ → Option Pbuf → List ℕ
kept_by counter none = []
kept_by counter (some b) = if counter == 1 then [] else b.address ∷ []

pub freed-append : (cs ds : List Call) → freed (cs ++ ds) ≡ freed cs ++ freed ds
freed-append [] ds = refl
freed-append (pbuf_free a ∷ cs) ds = ap (◌∷◌ a) (freed-append cs ds)
freed-append (queue_send a x b ∷ cs) ds = freed-append cs ds
freed-append (udp_send a x ∷ cs) ds = freed-append cs ds

pub addresses-append : (bs cs : List Pbuf) → addresses (bs ++ cs) ≡ addresses bs ++ addresses cs
addresses-append [] cs = refl
addresses-append (b ∷ bs) cs = ap (◌∷◌ b.address) (addresses-append bs cs)

-- The calls after the tenth packet free the merged packet or put it into the queue.
tenth-once :
    (b : Pbuf) (r : Answers) (a : ℕ)
    → Agree r
    → occurs a (freed (pass_on b r ++ send_only b r))
        + occurs a (addresses (sends (pass_on b r ++ send_only b r)))
      ≡ occurs a (b.address ∷ [])
tenth-once b r a agree = elim (Bool-cases (is_suspended r.second)) [
  | inl e ↦ rw (agree, e) omega arith
  | inr e ↦ elim (Bool-cases r.queued) [
    | inl q ↦ rw (agree, e, q) omega arith
    | inr q ↦ rw (agree, e, q) omega arith
  ]
]

-- The parser over one packet, with an empty list of calls before.
pub record Moves (p : Pbuf) (s s' : Parser) : Type 0 where
  pub counter : 0 < s'.counter_of_packets
  pub owned :
      (a : ℕ)
      → occurs a (kept_by s.counter_of_packets s.old_pbuf) + occurs a (p.address ∷ [])
        ≡ occurs a (freed s'.calls)
          + occurs a (addresses (sends s'.calls))
          + occurs a (kept_by s'.counter_of_packets s'.old_pbuf)

module _ (p old kept : Pbuf) (r : Answers) (s : Parser) (agree : Agree r) (none_made : s.calls ≡ [])
    (pos : 0 < s.counter_of_packets) (later : (s.counter_of_packets == 1) ≡ false)
    (is_old : s.old_pbuf ≡ some old) (same : kept.address ≡ old.address) where
  after-owned :
      (a : ℕ)
      → occurs a (kept_by s.counter_of_packets s.old_pbuf) + occurs a (p.address ∷ [])
        ≡ occurs a (freed (count (after p kept r s)).calls)
          + occurs a (addresses (sends (count (after p kept r s)).calls))
          + occurs a (kept_by (count (after p kept r s)).counter_of_packets (some kept))
  after-owned a = elim (Bool-cases (leb 10 s.counter_of_packets)) [
    | inl e ↦
        rw (is_old, later, e, none_made)
          (let once = tenth-once kept r a agree in
            let address = ap (λ x. occurs a (x ∷ [])) same in
            let all : occurs a (old.address ∷ []) + occurs a (p.address ∷ [])
                ≡ occurs a (p.address ∷ freed (pass_on kept r ++ send_only kept r))
                  + occurs a (addresses (sends (pass_on kept r ++ send_only kept r)))
                  + 0 =
              omega (arith, once, address) in
            all)
    | inr e ↦ rw (is_old, later, e, none_made) ground (arith, later, same)
  ]

  after-Moves : Moves p s (count (after p kept r s))
  after-Moves = record { counter = ground (arith, pos); owned = after-owned }

pub kept_by-first : (o : Option Pbuf) (counter : ℕ) → (counter == 1) ≡ true → kept_by counter o ≡ []
kept_by-first none counter h = refl
kept_by-first (some b) counter h = rw h refl

first-Moves :
    (p : Pbuf) (s : Parser)
    → s.calls ≡ []
    → (s.counter_of_packets == 1) ≡ true
    → Moves p s (count (record s { old_pbuf = some p }))
first-Moves p s none_made one = record {
  counter = ground (arith, one);
  owned = λ a.
      rw (kept_by-first s.old_pbuf s.counter_of_packets one, none_made)
        (let two : s.counter_of_packets ≡ 1 = ==→eq _ _ one in rw two (omega arith));
}

pub receive-Moves :
    (p : Pbuf) (r : Answers) (s s' : Parser)
    → Agree r
    → s.calls ≡ []
    → 0 < s.counter_of_packets
    → receive p r s ≡ some s'
    → Moves p s s'
unfolding receive merge_packet
receive-Moves p r s s' agree none_made pos e = elim (Bool-cases (s.counter_of_packets == 1)) [
  | inl one ↦
      let is_next : count (record s { old_pbuf = some p }) ≡ s' = some_inj (rw one at e) in
      subst (Moves p s) is_next (first-Moves p s none_made one)
  | inr later ↦
      let (old, e0, e1) = >>=-eq-some s.old_pbuf _ (rw later at e) in
      let (t, e2, e3) = >>=-eq-some (merge_packet p old r s) _ e1 in
      let (merged, e4, e5) = >>=-eq-some (merge p.packet old.packet) _ e2 in
      let kept = record old { packet = merged } in
      subst (Moves p s) (some_inj (sym (receive-after p old r s merged later e0 e4) ∙ e))
        (after-Moves p old kept r s agree none_made pos later e0 refl)
]
