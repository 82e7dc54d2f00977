-- ===== src/Pipeline/Ownership.antt =====
-- Which task has which packet.
use zynq_lwip_frtos.Pipeline.Packet.{
  addresses, freed, kept_by, freed-append, addresses-append, Moves, receive-Moves,
}
use zynq_lwip_frtos.Base.{
  ℕ, ◌+◌, ◌<◌, ◌≡◌, refl, subst, ap, some, some_inj, List, [], ◌∷◌, ◌++◌, append_assoc, append-nil,
  arith, occurs, occurs-append, >>=-eq-some,
}
use zynq_lwip_frtos.Udp.Task.{initial, is_suspended, Pbuf, pbuf_free, Parser, receive}
use zynq_lwip_frtos.Gain.Control.{auto_gain_control}
use zynq_lwip_frtos.Pipeline.{
  Pipeline, sends, udp_step, gain_entry, gain_step, Event, packet, gain_round, step, steps,
}

abbrev pub arrival : Event → List ℕ
arrival (packet p first second) = p.address ∷ []
arrival gain_round = []

abbrev pub arrivals : List Event → List ℕ
arrivals [] = []
arrivals (e ∷ es) = arrival e ++ arrivals es

-- The two states that are told for each packet agree.
unfoldable pub AllAgree : List Event → Type 0
AllAgree [] = Unit
AllAgree (packet p first second ∷ es) = (is_suspended first ≡ is_suspended second) × AllAgree es
AllAgree (gain_round ∷ es) = AllAgree es

-- Each packet that arrived was freed, waits in the queue, or is kept, as often as it arrived.
pub record Owned (us : List ℕ) (s : Pipeline) : Type 0 where
  pub counter : 0 < s.parser.counter_of_packets
  pub owned :
      (a : ℕ)
      → occurs a us
        ≡ occurs a (freed s.calls)
          + occurs a (addresses s.queue)
          + occurs a (kept_by s.parser.counter_of_packets s.parser.old_pbuf)

packet-Owned :
    (us : List ℕ) (p : Pbuf) (s : Pipeline) (parser : Parser)
    → Owned us s
    → Moves p s.parser parser
    → Owned (us ++ p.address ∷ []) (record s {
      parser = parser;
      queue = s.queue ++ sends parser.calls;
      calls = s.calls ++ parser.calls;
    })
packet-Owned us p s parser h m = record {
  counter = m.counter;
  owned = λ a.
      rw (freed-append s.calls parser.calls, addresses-append s.queue (sends parser.calls)) omega
        (
          arith,
          occurs-append a us (p.address ∷ []),
          occurs-append a (freed s.calls) (freed parser.calls),
          occurs-append a (addresses s.queue) (addresses (sends parser.calls)),
          h.owned a,
          m.owned a,
        );
}

gain-Owned :
    (us : List ℕ) (queue : List Pbuf) (s s' : Pipeline)
    → s.queue ≡ queue
    → Owned us s
    → gain_entry queue s ≡ some s'
    → Owned us s'
unfolding gain_entry
gain-Owned us [] s s' q h e = subst (Owned us) (some_inj e) h
gain-Owned us (b ∷ queue) s s' q h e =
    let (gain, e0, e1) = >>=-eq-some (auto_gain_control b.packet.chain s.gain) _ e in
    subst (Owned us) (some_inj e1) record {
      counter = h.counter;
      owned = λ a. rw (freed-append s.calls (pbuf_free b.address ∷ [])) omega (
        arith,
        h.owned a,
        ap (λ x. occurs a (addresses x)) q,
        occurs-append a (freed s.calls) (b.address ∷ []),
      );
    }

steps-Owned_from :
    (us : List ℕ) (es : List Event) (s s' : Pipeline)
    → AllAgree es
    → Owned us s
    → steps es s ≡ some s'
    → Owned (us ++ arrivals es) s'
unfolding steps step udp_step gain_step AllAgree
steps-Owned_from us [] s s' agree h e = rw (append-nil us) (subst (Owned us) (some_inj e) h)
steps-Owned_from us (packet p first second ∷ es) s s' (agree, rest) h e =
    let (t, e0, e1) = >>=-eq-some (udp_step p first second s) _ e in
    let (parser, e2, e3) = >>=-eq-some (receive p _ (record s.parser { calls = [] })) _ e0 in
    let m = receive-Moves p _ (record s.parser { calls = [] }) parser agree refl h.counter e2 in
    let h' = packet-Owned us p s parser h (record { counter = m.counter; owned = m.owned }) in
    subst (λ vs. Owned vs s') (append_assoc us (p.address ∷ []) (arrivals es))
      (steps-Owned_from (us ++ p.address ∷ []) es t s' rest
        (subst (Owned (us ++ p.address ∷ [])) (some_inj e3) h') e1)
steps-Owned_from us (gain_round ∷ es) s s' agree h e =
    let (t, e0, e1) = >>=-eq-some (gain_step s) _ e in
    steps-Owned_from us es t s' agree (gain-Owned us s.queue s t refl h e0) e1

-- In whatever order packets arrive and the task of the gain control runs, starting with an empty queue, if
-- for each packet the two answers about the state of that task agree, and as long as no step leaves
-- the behaviour of C: every packet that arrived was freed, waits in the queue between the tasks, or is
-- the one that is kept, as often as it arrived. None is lost, and none is freed twice.
pub steps-Owned :
    (es : List Event) (s s' : Pipeline)
    → AllAgree es
    → s.parser ≡ initial
    → s.queue ≡ []
    → s.calls ≡ []
    → steps es s ≡ some s'
    → Owned (arrivals es) s'
steps-Owned es s s' agree is_initial empty none_made e =
    let start : Owned [] s = record {
      counter = rw is_initial (omega arith);
      owned = λ a. rw (is_initial, empty, none_made) (omega arith);
    } in
    steps-Owned_from [] es s s' agree start e
