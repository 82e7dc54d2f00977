-- ===== src/Handoff/Ownership.antt =====
-- Where each buffer that arrives goes.
use zynq_lwip_frtos.Base.{
  occurs, occurs-append, ℕ, ◌+◌, ◌≡◌, refl, sym, subst, ap, ◌∙◌, inl, inr, Bool, true, false, ◌||◌,
  Option, none, some, some_inj, List, [], ◌∷◌, ◌++◌, append_assoc, append-nil, arith, length, ltb,
  Bool-cases, >>=-eq-some,
}
use mathlib.Core.Option.{map as map_option}
use zynq_lwip_frtos.Command.Dispatch.{States, parse_msg}
use zynq_lwip_frtos.Handoff.{
  Buffer, Call, queue_send, pbuf_free, yield_from_isr, parse_msg_call, Inbox, Event, arrives,
  parses, hand_over, recv_callback, parse_entry, tcp_parse_round, happen, happen_all,
}
use zynq_lwip_frtos.Handoff.Queue.{Fifo, list_receive, listed}
use zynq_lwip_frtos.Handoff.Refines.{abstract, happen_all-abstract}

-- The addresses in a queue, and those that arrived.
abbrev pub held : List (Option Buffer) → List ℕ
held [] = []
held (none ∷ q) = held q
held (some p ∷ q) = p.address ∷ held q

abbrev pub arrival : Event → List ℕ
arrival (arrives none wakes) = []
arrival (arrives (some p) wakes) = p.address ∷ []
arrival (parses r) = []

abbrev pub arrived : List Event → List ℕ
arrived [] = []
arrived (e ∷ es) = arrival e ++ arrived es

-- What the calls say: the addresses that the queue took, that were handled, and that were freed.
abbrev pub taken : List Call → List ℕ
taken [] = []
taken (queue_send a true ∷ cs) = a ∷ taken cs
taken (_ ∷ cs) = taken cs

abbrev pub handled : List Call → List ℕ
handled [] = []
handled (parse_msg_call a ∷ cs) = a ∷ handled cs
handled (_ ∷ cs) = handled cs

abbrev pub freed : List Call → List ℕ
freed [] = []
freed (pbuf_free a ∷ cs) = a ∷ freed cs
freed (_ ∷ cs) = freed cs

held-append : (q q' : List (Option Buffer)) → held (q ++ q') ≡ held q ++ held q'
held-append [] q' = refl
held-append (none ∷ q) q' = held-append q q'
held-append (some p ∷ q) q' = ap (◌∷◌ p.address) (held-append q q')

taken-append : (cs ds : List Call) → taken (cs ++ ds) ≡ taken cs ++ taken ds
taken-append [] ds = refl
taken-append (queue_send a true ∷ cs) ds = ap (◌∷◌ a) (taken-append cs ds)
taken-append (queue_send a false ∷ cs) ds = taken-append cs ds
taken-append (pbuf_free a ∷ cs) ds = taken-append cs ds
taken-append (yield_from_isr b ∷ cs) ds = taken-append cs ds
taken-append (parse_msg_call a ∷ cs) ds = taken-append cs ds

pub handled-append : (cs ds : List Call) → handled (cs ++ ds) ≡ handled cs ++ handled ds
handled-append [] ds = refl
handled-append (parse_msg_call a ∷ cs) ds = ap (◌∷◌ a) (handled-append cs ds)
handled-append (queue_send a b ∷ cs) ds = handled-append cs ds
handled-append (pbuf_free a ∷ cs) ds = handled-append cs ds
handled-append (yield_from_isr b ∷ cs) ds = handled-append cs ds

freed-append : (cs ds : List Call) → freed (cs ++ ds) ≡ freed cs ++ freed ds
freed-append [] ds = refl
freed-append (pbuf_free a ∷ cs) ds = ap (◌∷◌ a) (freed-append cs ds)
freed-append (queue_send a b ∷ cs) ds = freed-append cs ds
freed-append (parse_msg_call a ∷ cs) ds = freed-append cs ds
freed-append (yield_from_isr b ∷ cs) ds = freed-append cs ds

-- The buffers `us` have arrived: each was freed or is held, as often as it arrived, and what was
-- handled and what is held together are what the queue took, in that order.
pub record Accounted (us : List ℕ) (s : Inbox (List (Option Buffer))) : Type 0 where
  pub owned : (a : ℕ) → occurs a us ≡ occurs a (freed s.calls) + occurs a (held s.queue)
  pub in_order : handled s.calls ++ held s.queue ≡ taken s.calls

-- From `s` to `t` the calls `made` are added, and the buffers `vs` come in.
record Moves (vs : List ℕ) (s t : Inbox (List (Option Buffer))) : Type 0 where
  made : List Call
  calls_added : t.calls ≡ s.calls ++ made
  owned :
      (a : ℕ)
      → occurs a (held s.queue) + occurs a vs ≡ occurs a (freed made) + occurs a (held t.queue)
  in_order : handled made ++ held t.queue ≡ held s.queue ++ taken made

Moves-Accounted :
    (us vs : List ℕ) {s t : Inbox (List (Option Buffer))}
    → Moves vs s t
    → Accounted us s
    → Accounted (us ++ vs) t
Moves-Accounted us vs {s} {t} m h = record {
  owned = λ a.
      rw (m.calls_added, freed-append s.calls m.made) omega
        (
          arith,
          occurs-append a us vs,
          occurs-append a (freed s.calls) (freed m.made),
          m.owned a,
          h.owned a,
        );
  in_order =
      rw (m.calls_added, handled-append s.calls m.made, taken-append s.calls m.made, sym h.in_order)
        cc
        (
          append_assoc (handled s.calls) (handled m.made) (held t.queue),
          append_assoc (handled s.calls) (held s.queue) (taken m.made),
          m.in_order,
        );
}

module _ (capacity : ℕ) where
  abbrev spec : Fifo (Option Buffer) (List (Option Buffer))
  spec = listed capacity

  -- No call, and the same buffers.
  still-Moves :
      (q : List (Option Buffer)) (s : Inbox (List (Option Buffer)))
      → held s.queue ≡ held q
      → Moves [] s (record s { queue = q })
  still-Moves q s h = record {
    made = [];
    calls_added = sym (append-nil s.calls);
    owned = λ a. omega (arith, ap (occurs a) h);
    in_order = sym h ∙ sym (append-nil (held s.queue));
  }

  hand_over-Moves :
      (p : Buffer) (wakes : Bool) (s : Inbox (List (Option Buffer)))
      → Moves (p.address ∷ []) s (hand_over spec p wakes s)
  unfolding hand_over
  hand_over-Moves p wakes s = elim (Bool-cases (ltb (length s.queue) capacity)) [
    | inl e ↦ rw e record {
      made = queue_send p.address true ∷ yield_from_isr (s.woken || wakes) ∷ [];
      calls_added = refl;
      owned = λ a.
          rw (held-append s.queue (some p ∷ [])) omega
            (arith, occurs-append a (held s.queue) (p.address ∷ []));
      in_order = held-append s.queue (some p ∷ []);
    }
    | inr e ↦ rw e record {
      made =
          queue_send p.address false ∷ pbuf_free p.address ∷ yield_from_isr (s.woken || wakes) ∷ [];
      calls_added = refl;
      owned = λ a. omega (arith, occurs-append a (p.address ∷ []) []);
      in_order = sym (append-nil (held s.queue));
    }
  ]

  entry-Moves :
      (r : States) (q : List (Option Buffer)) (s t : Inbox (List (Option Buffer)))
      → s.queue ≡ q
      → parse_entry spec r (list_receive q).0 (list_receive q).1 s ≡ some t
      → Moves [] s t
  unfolding parse_entry
  entry-Moves r [] s t h e = subst (Moves [] s) (some_inj e) (still-Moves [] s (ap held h))
  entry-Moves r (none ∷ q) s t h e = subst (Moves [] s) (some_inj e) (still-Moves q s (ap held h))
  entry-Moves r (some p ∷ q) s t h e =
      let (st, e', e'') =
        >>=-eq-some (parse_msg r (record s.station { payload = p.payload })) _ e in
      subst (Moves [] s) (some_inj e'') record {
        made = parse_msg_call p.address ∷ pbuf_free p.address ∷ [];
        calls_added = refl;
        owned = λ a. rw h omega arith;
        in_order = rw h (sym (append-nil (p.address ∷ held q)));
      }

  happen-Moves :
      (e : Event) (s t : Inbox (List (Option Buffer)))
      → happen spec e s ≡ some t
      → Moves (arrival e) s t
  unfolding happen recv_callback tcp_parse_round
  happen-Moves (arrives none wakes) s t h =
      subst (Moves [] s) (some_inj h) (still-Moves s.queue s refl)
  happen-Moves (arrives (some p) wakes) s t h =
      subst (Moves (p.address ∷ []) s) (some_inj h) (hand_over-Moves p wakes s)
  happen-Moves (parses r) s t h = entry-Moves r s.queue s t refl h

  happen_all-Accounted_from :
      (es : List Event) (us : List ℕ) (s t : Inbox (List (Option Buffer)))
      → Accounted us s
      → happen_all spec es s ≡ some t
      → Accounted (us ++ arrived es) t
  unfolding happen_all
  happen_all-Accounted_from [] us s t h e = rw (append-nil us) (subst (Accounted us) (some_inj e) h)
  happen_all-Accounted_from (e ∷ es) us s t h k =
      let (s', one, rest) = >>=-eq-some (happen spec e s) _ k in
      let h' = Moves-Accounted us (arrival e) (happen-Moves e s s' one) h in
      subst (λ vs. Accounted vs t) (append_assoc us (arrival e) (arrived es))
        (happen_all-Accounted_from es (us ++ arrival e) s' t h' rest)

-- Whatever the queue of FreeRTOS, and in whatever order buffers arrive and the task runs, starting with an
-- empty queue and as long as `parse_msg` does not leave the behaviour of C: each buffer that arrived
-- was freed or is still in the queue, as often as it arrived, so that none is lost or freed twice; and
-- the buffers that the task handled, followed by those in the queue, are the ones that the queue took,
-- in the order in which it took them.
pub happen_all-Accounted :
    {Q : Type 0} (f : Fifo (Option Buffer) Q) (es : List Event) (s t : Inbox Q)
    → f.contents s.queue ≡ []
    → s.calls ≡ []
    → happen_all f es s ≡ some t
    → Accounted (arrived es) (abstract f t)
happen_all-Accounted f es s t empty none_made e =
    let start : Accounted [] (abstract f s) =
      rw (empty, none_made) record { owned = λ a. omega arith; in_order = refl } in
    happen_all-Accounted_from f.capacity es [] (abstract f s) (abstract f t) start
      (sym (happen_all-abstract f es s) ∙ ap (map_option (abstract f)) e)
