-- ===== src/Pipeline/Sound.antt =====
-- Packets of one format never make a task leave the behaviour of C, in whatever order the tasks run.
use zynq_lwip_frtos.Base.{
  ◌≡◌, refl, inl, inr, false, Option, none, some, List, [], ◌∷◌, ◌++◌, leb, ◌==◌, Bool-cases,
}
use zynq_lwip_frtos.Handoff.Queue.{Fifo}
use zynq_lwip_frtos.Udp.Task.{Pbuf, Parser, count}
use zynq_lwip_frtos.Gain.Invariant.{IsValid, Gives, gives, bind-Gives}
use zynq_lwip_frtos.Pipeline.Format.{Format, Sound, merge-Sound}
use zynq_lwip_frtos.Pipeline.Alive.{send_lem}
use zynq_lwip_frtos.Pipeline.Schedule.{
  Place, waiting, first_question, sending, refused, answering, second_question, sending_only,
  freeing, System, merge_into, take_packet,
}

module _ (c : Format) where
  abbrev pub AllSound : List Pbuf → Type 0
  AllSound [] = Unit
  AllSound (b ∷ bs) = Sound c b × AllSound bs

  AllSound-append : (bs : List Pbuf) (b : Pbuf) → AllSound bs → Sound c b → AllSound (bs ++ b ∷ [])
  AllSound-append [] b v w = (w, tt)
  AllSound-append (x ∷ bs) b (u, v) w = (u, AllSound-append bs b v w)

  abbrev pub IfSome : Option Pbuf → Type 0
  IfSome none = Unit
  IfSome (some b) = Sound c b

  abbrev pub AtPlace : Place → Type 0
  AtPlace waiting = Unit
  AtPlace (first_question b) = Sound c b
  AtPlace (sending b) = Sound c b
  AtPlace (refused b) = Sound c b
  AtPlace (answering b taken) = Sound c b
  AtPlace (second_question b) = Sound c b
  AtPlace (sending_only b) = Sound c b
  AtPlace (freeing b) = Sound c b

  -- Unless a new group begins, a packet of the format is kept.
  abbrev pub Keeps : Parser → Type 0
  Keeps s =
      (s.counter_of_packets == 1) ≡ false → (old : Pbuf) × (s.old_pbuf ≡ some old) × Sound c old

  -- What `udp_parse_task` has after it took a packet.
  abbrev pub TookSound : Parser × Place → Type 0
  TookSound (s, place) = Keeps s × AtPlace place

  merge_into-TookSound :
      (p old : Pbuf) (s : Parser)
      → Sound c p
      → Sound c old
      → Gives (λ r. TookSound (count r.0, r.1)) (merge_into p old s)
  unfolding merge_into
  merge_into-TookSound p old s v w =
      let (merged, e, sound) = merge-Sound c p old v w in
      rw e (elim (Bool-cases (leb 10 s.counter_of_packets)) [
        | inl tenth ↦
            rw tenth (gives ((λ more. (record old { packet = merged }, refl, sound)), sound))
        | inr more ↦ rw more (gives ((λ later. (record old { packet = merged }, refl, sound)), tt))
      ])

  pub take_packet-TookSound :
      (p : Pbuf) (s : Parser) → Sound c p → Keeps s → Gives TookSound (take_packet p s)
  unfolding take_packet merge_into
  take_packet-TookSound p s v k = elim (Bool-cases (s.counter_of_packets == 1)) [
    | inl one ↦ rw one (gives ((λ later. (p, refl, v)), tt))
    | inr later ↦
        let (old, e, w) = k later in
        rw (later, e) (bind-Gives _ (merge_into-TookSound p old s v w) λ r q. gives q)
  ]

  module _ {Q : Type 0} (f : Fifo Pbuf Q) where
    -- Every packet that a task or a queue has is of the format, and the state of the gain control
    -- is well formed.
    pub record SoundSystem (s : System Q) : Type 0 where
      pub inbox : AllSound (f.contents s.inbox)
      pub kept : Keeps s.parser
      pub place : AtPlace s.place
      pub queue : AllSound (f.contents s.queue)
      pub handling : IfSome s.handling
      pub gain : IsValid s.gain

    pub sent-AllSound :
        (q : Q) (b : Pbuf)
        → AllSound (f.contents q)
        → Sound c b
        → AllSound (f.contents (f.send q b).1)
    sent-AllSound q b v w = elim (send_lem f q b) [
      | inl (sent, e) ↦ rw e (AllSound-append (f.contents q) b v w)
      | inr (sent, e) ↦ rw e v
    ]

    pub received-AllSound :
        (q : Q)
        → AllSound (f.contents q)
        → IfSome (f.receive q).0 × AllSound (f.contents (f.receive q).1)
    received-AllSound q v = by_contents (f.contents q) refl v
      where
        by_contents :
            (bs : List Pbuf)
            → f.contents q ≡ bs
            → AllSound bs
            → IfSome (f.receive q).0 × AllSound (f.contents (f.receive q).1)
        by_contents [] e v = let (answer, left) = f.receive_empty q e in rw (answer, left) (tt, tt)
        by_contents (b ∷ bs) e (w, v) =
            let (answer, left) = f.receive_first q b bs e in rw (answer, left) (w, v)
