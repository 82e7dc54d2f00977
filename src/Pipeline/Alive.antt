-- ===== src/Pipeline/Alive.antt =====
-- The states that the tasks reach in any order of their steps: each packet is with one of them, or freed.
use zynq_lwip_frtos.Base.{
  ℕ, ◌+◌, ◌<◌, ◌≡◌, ◌⊎◌, refl, subst, ap, inl, inr, true, false, Option, none, some, some_inj, List,
  [], ◌∷◌, ◌++◌, arith, ltb, ltb→lt, ltb→le, length, Bool-cases, occurs, occurs-append, >>=-eq-some,
  if◌then◌else◌,
}
use zynq_lwip_frtos.Handoff.Queue.{Fifo}
use zynq_lwip_frtos.Udp.Task.{Pbuf, pbuf_free}
use zynq_lwip_frtos.Pipeline.Packet.{addresses, freed, kept_by, freed-append, addresses-append}
use zynq_lwip_frtos.Pipeline.Held.{at_hand, Passing, handled, take_packet-Takes}
use zynq_lwip_frtos.Pipeline.Schedule.{waiting, System, take_packet, arrive, take_entry}

module _ {Q : Type 0} (f : Fifo Pbuf Q) where
  -- A packet that is sent to a queue is in it or not.
  pub send_lem :
      (q : Q) (p : Pbuf)
      → (((f.send q p).0 ≡ true) × (f.contents (f.send q p).1 ≡ f.contents q ++ p ∷ []))
        ⊎ (((f.send q p).0 ≡ false) × (f.contents (f.send q p).1 ≡ f.contents q))
  send_lem q p = elim (Bool-cases (ltb (length (f.contents q)) f.capacity)) [
    | inl room ↦ inl (f.send_room q p (ltb→lt _ _ room))
    | inr full ↦ inr (f.send_full q p (ltb→le _ _ full))
  ]

  send-addresses :
      (q : Q) (p : Pbuf) (a : ℕ)
      → occurs a (addresses (f.contents (f.send q p).1))
          + occurs a (freed (if (f.send q p).0 then [] else pbuf_free p.address ∷ []))
        ≡ occurs a (addresses (f.contents q)) + occurs a (p.address ∷ [])
  send-addresses q p a = elim (send_lem q p) [
    | inl (sent, e) ↦
        rw (sent, e, addresses-append (f.contents q) (p ∷ [])) omega
          (arith, occurs-append a (addresses (f.contents q)) (p.address ∷ []))
    | inr (sent, e) ↦ rw (sent, e) omega arith
  ]

  -- What a queue hands out, it has no longer.
  pub receive-addresses :
      (q : Q) (a : ℕ)
      → occurs a (handled (f.receive q).0) + occurs a (addresses (f.contents (f.receive q).1))
        ≡ occurs a (addresses (f.contents q))
  receive-addresses q a = by_contents (f.contents q) refl
    where
      by_contents :
          (bs : List Pbuf)
          → f.contents q ≡ bs
          → occurs a (handled (f.receive q).0) + occurs a (addresses (f.contents (f.receive q).1))
            ≡ occurs a (addresses (f.contents q))
      by_contents [] e = let (answer, left) = f.receive_empty q e in rw (answer, left, e) refl
      by_contents (b ∷ bs) e =
          let (answer, left) = f.receive_first q b bs e in rw (answer, left, e) (omega arith)

  -- Each packet that arrived was freed, waits in a queue, or is with one task, as often as it arrived.
  pub record Held (us : List ℕ) (s : System Q) : Type 0 where
    pub counter : 0 < s.parser.counter_of_packets
    pub passing : Passing s.place s.suspended (addresses (f.contents s.queue))
    pub owned :
        (a : ℕ)
        → occurs a us
          ≡ occurs a (freed s.calls)
            + occurs a (addresses (f.contents s.inbox))
            + occurs a (kept_by s.parser.counter_of_packets s.parser.old_pbuf)
            + occurs a (at_hand s.place s.suspended)
            + occurs a (addresses (f.contents s.queue))
            + occurs a (handled s.handling)

  pub arrive-Held :
      (us : List ℕ) (p : Pbuf) (s : System Q)
      → Held us s
      → Held (us ++ p.address ∷ []) (arrive f p s)
  unfolding arrive
  arrive-Held us p s h = record {
    counter = h.counter;
    passing = h.passing;
    owned = λ a.
        rw (freed-append s.calls (if (f.send s.inbox p).0 then [] else pbuf_free p.address ∷ []))
          omega
          (
            arith,
            h.owned a,
            occurs-append a us (p.address ∷ []),
            occurs-append a (freed s.calls)
                (freed (if (f.send s.inbox p).0 then [] else pbuf_free p.address ∷ [])),
            send-addresses s.inbox p a,
          );
  }

  pub take_entry-Held :
      (us : List ℕ) (s s' : System Q)
      → s.place ≡ waiting
      → Held us s
      → take_entry f (f.receive s.inbox).0 (f.receive s.inbox).1 s ≡ some s'
      → Held us s'
  unfolding take_entry
  take_entry-Held us s s' w h e = by_entry (f.receive s.inbox).0 refl e
    where
      by_entry :
          (entry : Option Pbuf)
          → (f.receive s.inbox).0 ≡ entry
          → take_entry f entry (f.receive s.inbox).1 s ≡ some s'
          → Held us s'
      by_entry none q e = subst (Held us) (some_inj e) record {
        counter = h.counter;
        passing = h.passing;
        owned = λ a.
            omega (arith, h.owned a, receive-addresses s.inbox a, ap (λ o. occurs a (handled o)) q);
      }
      by_entry (some p) q e =
          let (r, e0, e1) = >>=-eq-some (take_packet p _) _ e in
          let t = take_packet-Takes p (record s.parser { calls = [] }) r refl h.counter e0 in
          subst (Held us) (some_inj e1) record {
            counter = t.counter;
            passing = t.passing s.suspended _;
            owned = λ a. rw (freed-append s.calls r.0.calls) omega (
              arith,
              h.owned a,
              ap (λ x. occurs a (at_hand x s.suspended)) w,
              receive-addresses s.inbox a,
              ap (λ o. occurs a (handled o)) q,
              t.owned a s.suspended,
              occurs-append a (freed s.calls) (freed r.0.calls),
            );
          }
