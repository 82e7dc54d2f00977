-- ===== src/Udp/Order.antt =====
-- A group of ten packets in another order.
use mathlib.Core.Logic.{∥∥₁_elim}
use mathlib.Core.List.{Perm, Permᴰ}
use native.Mathlib.Nat.{ℕ_set}
use zynq_lwip_frtos.Base.{
  ℕ, ◌+◌, ◌*◌, ◌<◌, ◌≡◌, refl, sym, ap, ◌∙◌, max, some, List, [], ◌∷◌, ◌++◌, arith, length,
}
use zynq_lwip_frtos.Udp.Task.{Pbuf, Answers, Parser, initial, receive_all}
use zynq_lwip_frtos.Udp.Group.{AllBytes, sample, start, visited}
use zynq_lwip_frtos.Udp.Total.{sizes}
use zynq_lwip_frtos.Udp.Peak.{AllFitting, peak}
use zynq_lwip_frtos.Udp.Tenth.{receive_all-Peaks}

-- Ten packets, each with what the task is told.
pub record Ten : Type 0 where
  pub first : Pbuf × Answers
  pub middle : List (Pbuf × Answers)
  pub last : Pbuf × Answers

-- They are bytes, in buffers of the same memory, and those after the first are of one length.
pub record IsTen (ls : List ℕ) (total_len : ℕ) (g : Ten) : Type 0 where
  pub fitting : AllFitting ls total_len (g.middle ++ g.last ∷ [])
  pub shape : sizes g.first.0.packet.chain ≡ ls
  pub bytes : AllBytes g.first.0.packet.chain
  pub eight : length g.middle ≡ 8

abbrev pub in_order : Ten → List (Pbuf × Answers)
in_order g = g.first ∷ (g.middle ++ g.last ∷ [])

abbrev pub packets : List (Pbuf × Answers) → List Pbuf
packets [] = []
packets ((p, r) ∷ ps) = p ∷ packets ps

abbrev top : List Pbuf → ℕ → ℕ → ℕ
top [] b i = 0
top (p ∷ ps) b i = max (sample p.packet.chain b i) (top ps b i)

peak-top :
    (chain : List (List ℕ)) (ps : List (Pbuf × Answers)) (b i : ℕ)
    → peak chain ps b i ≡ max (sample chain b i) (top (packets ps) b i)
peak-top chain [] b i = omega arith
peak-top chain ((p, r) ∷ ps) b i = omega (arith, peak-top chain ps b i)

top-permᴰ : {ps qs : List Pbuf} (b i : ℕ) → Permᴰ ps qs → top ps b i ≡ top qs b i
top-permᴰ b i Permᴰ.nil = refl
top-permᴰ b i (Permᴰ.cons e d) =
    omega (arith, ap (λ p. sample p.packet.chain b i) e, top-permᴰ b i d)
top-permᴰ b i (Permᴰ.swap e e') =
    omega (arith, ap (λ p. sample p.packet.chain b i) e, ap (λ p. sample p.packet.chain b i) e')
top-permᴰ b i (Permᴰ.trans d d') = top-permᴰ b i d ∙ top-permᴰ b i d'

top-perm : {ps qs : List Pbuf} (b i : ℕ) → Perm ps qs → top ps b i ≡ top qs b i
top-perm b i p = ∥∥₁_elim p (ℕ_set _ _) (top-permᴰ b i)

-- What two groups leave has the same samples wherever the loops go.
pub record SameSamples (ls : List ℕ) (total_len : ℕ) (s s' : Parser) : Type 0 where
  pub kept : Pbuf
  pub kept' : Pbuf
  pub is_kept : s.old_pbuf ≡ some kept
  pub is_kept' : s'.old_pbuf ≡ some kept'
  pub same :
      (b k : ℕ)
      → b < length ls
      → k < visited total_len b
      → sample kept.packet.chain b (start 32 b + k * 2)
        ≡ sample kept'.packet.chain b (start 32 b + k * 2)

-- Two groups of ten packets, of bytes, that lwIP hands over in buffers of its pool, the nine later ones of one
-- length and all with buffers of the same memory, and that are the same packets in another order, are
-- merged into the same words wherever the loops go, whatever the task is told in between.
pub receive_all-perm :
    (ls : List ℕ) (total_len : ℕ) (g g' : Ten)
    → IsTen ls total_len g
    → IsTen ls total_len g'
    → Perm (packets (in_order g)) (packets (in_order g'))
    → (s : Parser) × (s' : Parser) × (receive_all (in_order g) initial ≡ some s)
      × (receive_all (in_order g') initial ≡ some s')
      × SameSamples ls total_len s s'
receive_all-perm ls t g g' h h' p =
    let (s, e, m, passes) =
      receive_all-Peaks ls t g.first.0 g.last.0 g.first.1 g.last.1 g.middle h.fitting h.shape
        h.bytes h.eight in
    let (s', e', m', passes') =
      receive_all-Peaks ls t g'.first.0 g'.last.0 g'.first.1 g'.last.1 g'.middle h'.fitting h'.shape
        h'.bytes h'.eight in
    (
      s,
      s',
      e,
      e',
      record {
        kept = m.kept;
        kept' = m'.kept;
        is_kept = m.is_kept;
        is_kept' = m'.is_kept;
        same = λ b k l l'.
            m.largest b k l l'
            ∙ peak-top g.first.0.packet.chain (g.middle ++ g.last ∷ []) b _
            ∙ top-perm b _ p
            ∙ sym (peak-top g'.first.0.packet.chain (g'.middle ++ g'.last ∷ []) b _)
            ∙ sym (m'.largest b k l l');
      },
    )
