-- ===== src/Compose/Maximum.antt =====
-- src/iwip.c, lines 88-111: what `refactor_more` writes.
use zynq_lwip_frtos.Base.{
  ℕ, zero, suc, ◌≤◌, ◌<◌, ◌≡◌, refl, sym, ap, ◌∙◌, max, some, List, [], ◌∷◌, ◌++◌, arith, length,
  take, drop, get_or, replicate,
}
use zynq_lwip_frtos.Compose.{Storage, maxima, refactor_more}
use zynq_lwip_frtos.Compose.Write.{overwrite-some}
use zynq_lwip_frtos.Compose.Larger.{keep_in-KeepsLarger}

-- Each storage has the 124 bytes of video that are read.
abbrev pub Wide : List Storage → Type 0
Wide [] = Unit
Wide (d ∷ ds) = (124 ≤ length d.video_data) × Wide ds

-- The largest byte of video at a place.
abbrev pub peak : List Storage → ℕ → ℕ
peak [] i = 0
peak (d ∷ ds) i = max (get_or d.video_data i 0) (peak ds i)

record IsMaxima (ds : List Storage) (acc ys : List ℕ) : Type 0 where
  length_same : length ys ≡ length acc
  peaks : (i : ℕ) → i < 124 → get_or ys i 0 ≡ max (get_or acc i 0) (peak ds i)

maxima-IsMaxima :
    (ds : List Storage) (acc : List ℕ)
    → Wide ds
    → length acc ≡ 124
    → (ys : List ℕ) × (maxima (length ds) ds acc ≡ some ys) × IsMaxima ds acc ys
unfolding maxima
maxima-IsMaxima [] acc w h = (acc, refl, record { length_same = refl; peaks = λ i l. omega arith })
maxima-IsMaxima (d ∷ ds) acc w h =
    let (acc', e, r) = keep_in-KeepsLarger 124 d.video_data acc w.0 (omega (arith, h)) in
    let (ys, e', m) = maxima-IsMaxima ds acc' w.1 (r.length_same ∙ h) in
    (
      ys,
      rw e e',
      record {
        length_same = m.length_same ∙ r.length_same;
        peaks = λ i l. omega (arith, m.peaks i l, r.larger i l);
      },
    )

take-all : (xs : List ℕ) (n : ℕ) → length xs ≡ n → take n xs ≡ xs
take-all [] n h = rw (sym h) refl
take-all (x ∷ xs) n h = rw (sym h) (ap (◌∷◌ x) (take-all xs (length xs) refl))

get_or-replicate : (n i d : ℕ) → get_or (replicate n d) i d ≡ d
get_or-replicate zero i d = refl
get_or-replicate (suc n) zero d = refl
get_or-replicate (suc n) (suc i) d = get_or-replicate n i d

-- With at least one storage, each with 124 bytes of video, and a header array of 124 bytes or more,
-- `refactor_more` ends: it writes the 124 largest values, place by place, over the start of the header
-- of the result, and changes nothing else of it.
pub refactor_more-peak :
    (lst d : Storage) (ds : List Storage)
    → Wide (d ∷ ds)
    → 124 ≤ length lst.header_data
    → (ys : List ℕ) × (refactor_more lst (d ∷ ds) (length (d ∷ ds))
        ≡ some (record lst { header_data = ys ++ drop 124 lst.header_data }))
      × (length ys ≡ 124)
      × ((i : ℕ) → i < 124 → get_or ys i 0 ≡ peak (d ∷ ds) i)
unfolding refactor_more
refactor_more-peak lst d ds w h =
    let zeros : List ℕ = replicate 124 0 in
    let (ys, e, m) = maxima-IsMaxima (d ∷ ds) zeros w refl in
    let l : length ys ≡ 124 = m.length_same in
    (
      ys,
      rw e
          (rw (overwrite-some lst.header_data ys 124 h (omega (arith, l)), take-all ys 124 l) refl),
      l,
      λ i k. omega (arith, m.peaks i k, get_or-replicate 124 i 0),
    )
