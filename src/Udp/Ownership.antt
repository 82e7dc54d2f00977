-- ===== src/Udp/Ownership.antt =====
-- Who owns the packets: each one is given up once.
use zynq_lwip_frtos.Base.{
  ℕ, suc, ◌+◌, ◌%◌, ◌≡◌, ◌≢◌, refl, sym, subst, ◌∙◌, inl, inr, false, some, List, [], ◌∷◌, ◌++◌,
  arith, append-nil, length, leb, ◌==◌, if◌then◌else◌, Bool-cases,
}
use zynq_lwip_frtos.Udp.Merge.{Packet, merge}
use zynq_lwip_frtos.Udp.Calls.{releases, releases-append, tenth-releases}
use zynq_lwip_frtos.Udp.Total.{sizes, Covers, merge-some}
use zynq_lwip_frtos.Udp.Task.{
  is_suspended, Pbuf, pbuf_free, Answers, Parser, initial, pass_on, send_only, merge_packet, count,
  receive, receive_all,
}

-- The two answers about the state of the task agree.
abbrev pub Agree : Answers → Type 0
Agree r = is_suspended r.first ≡ is_suspended r.second

-- Between two packets the task holds one packet, unless it is about to start a new group.
abbrev pub held : ℕ → ℕ
held counter = if counter == 1 then 0 else 1

-- What the task has after `received` packets whose buffers have the lengths `ls`: the counter, the
-- number of packets given up, and the packet that is kept.
pub record Counts (ls : List ℕ) (s : Parser) (received : ℕ) : Type 0 where
  pub counter : s.counter_of_packets ≡ received % 10 + 1
  pub owned : releases s.calls + held s.counter_of_packets ≡ received
  kept :
      s.counter_of_packets ≢ 1
      → (old : Pbuf) × (s.old_pbuf ≡ some old) × (sizes old.packet.chain ≡ ls)

tenth-Agree : (b : Pbuf) (r : Answers) → Agree r → releases (pass_on b r ++ send_only b r) ≡ 1
tenth-Agree b r agree = ground (arith, tenth-releases b r, agree)

-- The task after a packet was merged into `kept`.
abbrev pub after : Pbuf → Pbuf → Answers → Parser → Parser
after p kept r s = record {
  old_pbuf = some kept;
  counter_of_packets = if leb 10 s.counter_of_packets then 0 else s.counter_of_packets;
  calls =
      (s.calls ++ pbuf_free p.address ∷ [])
      ++ (if leb 10 s.counter_of_packets then pass_on kept r ++ send_only kept r else []);
}

merge_packet-after :
    (p old : Pbuf) (r : Answers) (s : Parser) (merged : Packet)
    → merge p.packet old.packet ≡ some merged
    → merge_packet p old r s ≡ some (after p (record old { packet = merged }) r s)
unfolding merge_packet
merge_packet-after p old r s merged e = rw e (elim (Bool-cases (leb 10 s.counter_of_packets)) [
  | inl h ↦ rw h
  | inr h ↦ rw (h, append-nil (s.calls ++ pbuf_free p.address ∷ []))
])

after-releases :
    (p kept : Pbuf) (r : Answers) (s : Parser)
    → Agree r
    → releases (after p kept r s).calls
      ≡ releases s.calls + (if leb 10 s.counter_of_packets then 2 else 1)
unfolding releases
after-releases p kept r s agree = ground (
  arith,
  releases-append s.calls (pbuf_free p.address ∷ []),
  releases-append (s.calls ++ pbuf_free p.address ∷ []) (pass_on kept r ++ send_only kept r),
  releases-append (s.calls ++ pbuf_free p.address ∷ []) [],
  tenth-Agree kept r agree,
)

-- The packet's buffers have the lengths `ls` and hold the bytes that are merged.
abbrev pub Mergeable : List ℕ → Pbuf → Type 0
Mergeable ls p = (sizes p.packet.chain ≡ ls) × Covers ls 32 p.packet.tot_len

after-Counts :
    (ls : List ℕ) (p kept : Pbuf) (r : Answers) (s : Parser) (n : ℕ)
    → Agree r
    → s.counter_of_packets ≢ 1
    → Counts ls s n
    → sizes kept.packet.chain ≡ ls
    → Counts ls (count (after p kept r s)) (suc n)
after-Counts ls p kept r s n agree later c h = record {
  counter = ground (arith, c.counter);
  owned = ground (arith, c.counter, c.owned, after-releases p kept r s agree);
  kept = λ more. (kept, refl, h);
}

pub receive-after :
    (p old : Pbuf) (r : Answers) (s : Parser) (merged : Packet)
    → (s.counter_of_packets == 1) ≡ false
    → s.old_pbuf ≡ some old
    → merge p.packet old.packet ≡ some merged
    → receive p r s ≡ some (count (after p (record old { packet = merged }) r s))
unfolding receive
receive-after p old r s merged later e h = simp (later, e, merge_packet-after p old r s merged h)

pub receive-Counts :
    (ls : List ℕ) (p : Pbuf) (r : Answers) (s : Parser) (n : ℕ)
    → Agree r
    → Mergeable ls p
    → Counts ls s n
    → (s' : Parser) × (receive p r s ≡ some s') × Counts ls s' (suc n)
unfolding receive
receive-Counts ls p r s n agree (same, covers) c = elim (Bool-cases (s.counter_of_packets == 1)) [
  | inl first ↦ (
    count (record s { old_pbuf = some p }),
    rw first,
    record {
      counter = ground (arith, c.counter);
      owned = ground (arith, c.counter, c.owned);
      kept = λ more. (p, refl, same);
    },
  )
  | inr later ↦
      let (old, e, same') = c.kept (ground arith) in
      let (merged, h, same'') =
        merge-some p.packet old.packet (same ∙ sym same') (rw same covers) in
      (
        count (after p (record old { packet = merged }) r s),
        receive-after p old r s merged later e h,
        after-Counts ls p (record old { packet = merged }) r s n agree (ground arith) c
            (same'' ∙ same'),
      )
]

-- What each step of a run needs of its packet and of the answers.
unfoldable pub Steps : List ℕ → List (Pbuf × Answers) → Type 0
Steps ls [] = Unit
Steps ls ((p, r) ∷ rest) = Mergeable ls p × Agree r × Steps ls rest

receive_all-Counts :
    (ls : List ℕ) (ps : List (Pbuf × Answers)) (s : Parser) (n : ℕ)
    → Steps ls ps
    → Counts ls s n
    → (s' : Parser) × (receive_all ps s ≡ some s') × Counts ls s' (n + length ps)
unfolding receive_all Steps
receive_all-Counts ls [] s n steps c = (s, refl, subst (Counts ls s) (omega arith) c)
receive_all-Counts ls ((p, r) ∷ rest) s n (m, agree, steps) c =
    let (s', e, c') = receive-Counts ls p r s n agree m c in
    let (s'', e', c'') = receive_all-Counts ls rest s' (suc n) steps c' in
    (s'', rw e e', subst (Counts ls s'') (omega arith) c'')

-- Over any sequence of packets of one shape whose buffers hold the bytes that are merged, where for
-- each packet the two answers about the state of the gain control task agree, the task reads and
-- writes no byte outside a buffer; its counter is the number of packets modulo ten, plus one; and
-- the packets given up, plus the one that it still holds, are as many as the packets it received,
-- whatever the queue answers.
pub receive_all-releases :
    (ls : List ℕ) (ps : List (Pbuf × Answers))
    → Steps ls ps
    → (s : Parser) × (receive_all ps initial ≡ some s)
      × (s.counter_of_packets ≡ length ps % 10 + 1)
      × (releases s.calls + (if s.counter_of_packets == 1 then 0 else 1) ≡ length ps)
unfolding releases
receive_all-releases ls ps steps =
    let start : Counts ls initial 0 = record {
      counter = refl;
      owned = refl;
      kept = λ more. elim (more refl) [ ];
    } in
    let (s, e, c) = receive_all-Counts ls ps initial 0 steps start in
    (s, e, ground (arith, c.counter), ground (arith, c.owned))
