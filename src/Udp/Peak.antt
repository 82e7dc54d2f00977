-- ===== src/Udp/Peak.antt =====
-- The packet that the task keeps over a group of ten.
use zynq_lwip_frtos.Base.{
  ℕ, suc, ◌+◌, ◌*◌, ◌≤◌, ◌<◌, ◌≡◌, refl, sym, ap, ◌∙◌, max, some, false, List, [], ◌∷◌, arith,
  length, ◌==◌, ne→==,
}
use zynq_lwip_frtos.Udp.Merge.{merge}
use zynq_lwip_frtos.Udp.Group.{AllBytes, sample, start, visited, ChainMax, merge_chain-ChainMax}
use zynq_lwip_frtos.Udp.Total.{sizes}
use zynq_lwip_frtos.Udp.Ownership.{after, receive-after}
use zynq_lwip_frtos.Udp.Pool.{Delivered, Delivered-Covers}
use zynq_lwip_frtos.Udp.Task.{Pbuf, Answers, Parser, count, receive_all}

-- A packet of the length `total_len` that lwIP hands over in buffers with the memory `ls`, of bytes.
pub record Fitting (ls : List ℕ) (total_len : ℕ) (p : Pbuf) : Type 0 where
  pub shape : sizes p.packet.chain ≡ ls
  pub delivered : Delivered ls p.packet.tot_len
  pub tot_len : p.packet.tot_len ≡ total_len
  pub bytes : AllBytes p.packet.chain

unfoldable pub AllFitting : List ℕ → ℕ → List (Pbuf × Answers) → Type 0
AllFitting ls total_len [] = Unit
AllFitting ls total_len ((p, r) ∷ ps) = Fitting ls total_len p × AllFitting ls total_len ps

-- The largest sample at a place, of a packet and of those that follow.
abbrev pub peak : List (List ℕ) → List (Pbuf × Answers) → ℕ → ℕ → ℕ
peak chain [] b i = sample chain b i
peak chain ((p, r) ∷ ps) b i = max (peak chain ps b i) (sample p.packet.chain b i)

-- The packet that is kept has the address and the shape of `old`, and the largest samples.
pub record Peaks (ls : List ℕ) (total_len : ℕ) (old : Pbuf) (ps : List (Pbuf × Answers))
    (s : Parser) : Type 0 where
  pub kept : Pbuf
  pub is_kept : s.old_pbuf ≡ some kept
  pub same : kept.address ≡ old.address
  pub largest :
      (b k : ℕ)
      → b < length ls
      → k < visited total_len b
      → sample kept.packet.chain b (start 32 b + k * 2)
        ≡ peak old.packet.chain ps b (start 32 b + k * 2)

length-sizes : (qs : List (List ℕ)) → length (sizes qs) ≡ length qs
unfolding sizes
length-sizes [] = refl
length-sizes (q ∷ qs) = ap suc (length-sizes qs)

merge-ChainMax :
    (ls : List ℕ) (total_len : ℕ) (p old : Pbuf)
    → Fitting ls total_len p
    → sizes old.packet.chain ≡ ls
    → AllBytes old.packet.chain
    → (ys : List (List ℕ)) × (merge p.packet old.packet ≡ some (record old.packet { chain = ys }))
      × ChainMax 32 total_len p.packet.chain old.packet.chain ys
unfolding merge
merge-ChainMax ls total_len p old f shape bytes =
    let same = f.shape in
    let covers = Delivered-Covers ls p.packet.tot_len f.delivered in
    let (ys, e, m) =
      merge_chain-ChainMax p.packet.chain old.packet.chain 32 p.packet.tot_len (same ∙ sym shape)
        (rw same covers) f.bytes bytes in
    (ys, rw e refl, rw (sym f.tot_len) m)

peak-max :
    (ys qs chain : List (List ℕ)) (ps : List (Pbuf × Answers)) (b i : ℕ)
    → sample ys b i ≡ max (sample qs b i) (sample chain b i)
    → peak ys ps b i ≡ max (peak chain ps b i) (sample qs b i)
peak-max ys qs chain [] b i h = omega (arith, h)
peak-max ys qs chain ((p, r) ∷ ps) b i h = omega (arith, peak-max ys qs chain ps b i h)

Fitting-length :
    (ls : List ℕ) (t : ℕ) (p : Pbuf) → Fitting ls t p → length p.packet.chain ≡ length ls
Fitting-length ls t p f = sym (length-sizes p.packet.chain) ∙ ap length f.shape

-- Of several packets that come after the one that is kept, inside a group.
pub group-Peaks :
    (ls : List ℕ) (total_len : ℕ) (old : Pbuf) (ps : List (Pbuf × Answers)) (s : Parser)
    → AllFitting ls total_len ps
    → s.old_pbuf ≡ some old
    → sizes old.packet.chain ≡ ls
    → AllBytes old.packet.chain
    → (0 < length ps → 2 ≤ s.counter_of_packets)
    → s.counter_of_packets + length ps ≤ 11
    → (s' : Parser) × (receive_all ps s ≡ some s')
      × Peaks ls total_len old ps s'
      × (s.counter_of_packets + length ps ≤ 10
          → s'.counter_of_packets ≡ s.counter_of_packets + length ps)
unfolding receive_all AllFitting
group-Peaks ls t old [] s f e shape bytes lo hi = (
  s,
  refl,
  record { kept = old; is_kept = e; same = refl; largest = λ b k h h'. refl },
  λ h. omega arith,
)
group-Peaks ls t old ((p, r) ∷ ps) s (f, fs) e shape bytes lo hi =
    let (ys, m, x) = merge-ChainMax ls t p old f shape bytes in
    let two : 2 ≤ s.counter_of_packets = lo (omega arith) in
    let later : (s.counter_of_packets == 1) ≡ false = ne→== _ _ (λ h. omega (arith, two)) in
    let kept = record old { packet = record old.packet { chain = ys } } in
    let next = count (after p kept r s) in
    let lo' : 0 < length ps → 2 ≤ next.counter_of_packets = λ h. ground (arith, two, h, hi) in
    let hi' : next.counter_of_packets + length ps ≤ 11 = ground (arith, two, hi) in
    let (s', e', g, c) = group-Peaks ls t kept ps next fs refl (x.shape ∙ shape) x.bytes lo' hi' in
    (
      s',
      rw (receive-after p old r s _ later e m) e',
      record {
        kept = g.kept;
        is_kept = g.is_kept;
        same = g.same;
        largest = λ b k h h'.
            g.largest b k h h'
            ∙ peak-max ys p.packet.chain old.packet.chain ps b _
                (x.larger b k (omega (arith, h, Fitting-length ls t p f)) h');
      },
      λ h.
          let n : next.counter_of_packets ≡ s.counter_of_packets + 1 = ground (arith, two, h) in
          omega (arith, n, c (omega (arith, n, h))),
    )
