-- ===== src/Pipeline/Format.antt =====
-- Packets of one format: merged, they are again of the format, and the gain control can handle them.
use zynq_lwip_frtos.Base.{
  ℕ, suc, ◌+◌, ◌*◌, ◌%◌, ◌^◌, ◌≤◌, ◌<◌, ◌≡◌, refl, sym, ◌∙◌, inl, inr, some, List, [], ◌∷◌, arith,
  length, get_elem?-get_or,
}
use zynq_lwip_frtos.Udp.Merge.{Packet, merge}
use zynq_lwip_frtos.Udp.MaxWords.{byte}
use zynq_lwip_frtos.Udp.Total.{sizes}
use zynq_lwip_frtos.Udp.Pool.{Delivered, Delivered-Covers}
use zynq_lwip_frtos.Udp.Pairs.{Either, first, merge-Pairs}
use zynq_lwip_frtos.Udp.Task.{Pbuf}
use zynq_lwip_frtos.Gain.Control.{word_at, triple_at}
use zynq_lwip_frtos.Gain.SampleLoop.{Holds}
use zynq_lwip_frtos.Gain.Task.{Admissible}

-- Buffers of these lengths hold so many samples.
unfoldable pub HoldsIn : ℕ → ℕ → List ℕ → Type 0
HoldsIn kursor n [] = Unit
HoldsIn kursor n (l ∷ ls) = (kursor + n * 2 ≤ l) × HoldsIn 0 n ls

-- The memory of the buffers, and the three bytes of the number of samples: at least one, and the
-- buffers hold them.
pub record Format : Type 0 where
  pub size : ℕ
  pub others : List ℕ
  pub high : ℕ
  pub middle : ℕ
  pub low : ℕ
  pub some_samples : 0 < (high * 0x10000 + middle * 0x100 + low) % 2 ^ 16
  pub complete : HoldsIn 74 ((high * 0x10000 + middle * 0x100 + low) % 2 ^ 16) (size ∷ others)

-- A packet of the format, which lwIP hands over in buffers of its pool: its azimuth is that of a direction.
pub record Sound (c : Format) (b : Pbuf) : Type 0 where
  pub shape : sizes b.packet.chain ≡ c.size ∷ c.others
  pub delivered : Delivered (c.size ∷ c.others) b.packet.tot_len
  pub inside : byte (first b.packet.chain) 54 * 0x100 + byte (first b.packet.chain) 55 < 64800
  pub high : byte (first b.packet.chain) 70 ≡ c.high
  pub middle : byte (first b.packet.chain) 71 ≡ c.middle
  pub low : byte (first b.packet.chain) 72 ≡ c.low

-- Both bytes are those of one packet, which has the property.
by_either :
    (q ref ys : List ℕ) (i : ℕ) (P : ℕ → ℕ → Type 0)
    → Either q ref ys i
    → P (byte ref i) (byte ref (suc i))
    → P (byte q i) (byte q (suc i))
    → P (byte ys i) (byte ys (suc i))
by_either q ref ys i P (inl (a, b)) u v = rw (a, b) u
by_either q ref ys i P (inr (a, b)) u v = rw (a, b) v

pub merge-Sound :
    (c : Format) (p old : Pbuf)
    → Sound c p
    → Sound c old
    → (merged : Packet) × (merge p.packet old.packet ≡ some merged)
      × Sound c (record old { packet = merged })
merge-Sound c p old v w =
    let (merged, e, shape, tot_len, either) =
      merge-Pairs p.packet old.packet (v.shape ∙ sym w.shape)
        (rw v.shape (Delivered-Covers (c.size ∷ c.others) p.packet.tot_len v.delivered)) in
    let samples =
      by_either (first p.packet.chain) (first old.packet.chain) (first merged.chain) 70
        (λ x y. (x ≡ c.high) × (y ≡ c.middle)) (either 19) (w.high, w.middle) (v.high, v.middle) in
    (
      merged,
      e,
      record {
        shape = shape ∙ w.shape;
        delivered = rw tot_len w.delivered;
        inside =
            by_either (first p.packet.chain) (first old.packet.chain) (first merged.chain) 54
              (λ x y. x * 0x100 + y < 64800) (either 11) w.inside v.inside;
        high = samples.0;
        middle = samples.1;
        low =
            by_either (first p.packet.chain) (first old.packet.chain) (first merged.chain) 72
              (λ x y. x ≡ c.low) (either 20) w.low v.low;
      },
    )

HoldsIn-Holds :
    (kursor n : ℕ) (chain : List (List ℕ)) (ls : List ℕ)
    → sizes chain ≡ ls
    → HoldsIn kursor n ls
    → Holds kursor n chain
unfolding sizes HoldsIn
HoldsIn-Holds kursor n [] ls e h = tt
HoldsIn-Holds kursor n (q ∷ qs) [] e h = cc
HoldsIn-Holds kursor n (q ∷ qs) (l ∷ ls) e (h, hs) =
    let here : length q ≡ l = cc in
    let there : sizes qs ≡ ls = cc in (omega (arith, h, here), HoldsIn-Holds 0 n qs ls there hs)

word_at-byte :
    (payload : List ℕ) (i : ℕ)
    → suc i < length payload
    → word_at payload i ≡ some (byte payload i * 0x100 + byte payload (i + 1))
unfolding word_at
word_at-byte payload i h =
    rw
      (get_elem?-get_or payload i 0 (omega arith), get_elem?-get_or payload (i + 1) 0 (omega arith))
      refl

triple_at-byte :
    (payload : List ℕ) (i : ℕ)
    → suc (suc i) < length payload
    → triple_at payload i
      ≡ some (byte payload i * 0x10000 + byte payload (i + 1) * 0x100 + byte payload (i + 2))
unfolding triple_at
triple_at-byte payload i h =
    rw
      (
        get_elem?-get_or payload i 0 (omega arith),
        get_elem?-get_or payload (i + 1) 0 (omega arith),
        get_elem?-get_or payload (i + 2) 0 (omega arith),
      )
      refl

chain-Admissible :
    (c : Format) (chain : List (List ℕ))
    → sizes chain ≡ c.size ∷ c.others
    → byte (first chain) 54 * 0x100 + byte (first chain) 55 < 64800
    → byte (first chain) 70 ≡ c.high
    → byte (first chain) 71 ≡ c.middle
    → byte (first chain) 72 ≡ c.low
    → Admissible chain
unfolding sizes
chain-Admissible c [] e inside high middle low = cc
chain-Admissible c (payload ∷ rest) e inside high middle low =
    let holds = HoldsIn-Holds 74 _ (payload ∷ rest) (c.size ∷ c.others) e c.complete in
    record {
      payload = payload;
      rest = rest;
      azimuth = byte payload 54 * 0x100 + byte payload 55;
      samples = c.high * 0x10000 + c.middle * 0x100 + c.low;
      chain = refl;
      direction = word_at-byte payload 54 (omega (arith, holds.0));
      announced = triple_at-byte payload 70 (omega (arith, holds.0)) ∙ rw (high, middle, low) refl;
      inside = inside;
      some_samples = c.some_samples;
      complete = holds;
    }

pub Sound-Admissible : (c : Format) (b : Pbuf) → Sound c b → Admissible b.packet.chain
Sound-Admissible c b v = chain-Admissible c b.packet.chain v.shape v.inside v.high v.middle v.low
