-- ===== src/Udp/MaxWords.antt =====
-- Merging keeps, sample by sample, the larger of two 16-bit words.
use zynq_lwip_frtos.Base.{
  ℕ, zero, suc, ◌+◌, ◌*◌, ◌≤◌, ◌<◌, ◌≡◌, ◌≢◌, refl, ◌∙◌, inl, inr, max, some, List, arith, length,
  length-set, get_or, get_elem?-get_or, get_or-set_self, get_or-set_ne, set, ltb, ltb→lt, ltb→le,
  Bool-cases,
}
use native.Mathlib.Numerals.{add-one}
use native.Mathlib.Nat.{add-zero}
use zynq_lwip_frtos.Udp.Merge.{copy_pair, is_greater, merge_pair, merge_words}

-- The byte at an index, and the word that starts there, the high byte first.
abbrev pub byte : List ℕ → ℕ → ℕ
byte xs i = get_or xs i 0

abbrev pub word : List ℕ → ℕ → ℕ
word xs i = byte xs i * 256 + byte xs (suc i)

-- `ys` holds the larger word at `i`, and is `ref` elsewhere.
record Merged (q ref ys : List ℕ) (i : ℕ) : Type 0 where
  length_same : length ys ≡ length ref
  larger : word ys i ≡ max (word q i) (word ref i)
  elsewhere : (j : ℕ) → j ≢ i → j ≢ suc i → byte ys j ≡ byte ref j

module _ (q ref : List ℕ) (i : ℕ) (hq : suc i < length q) (hr : suc i < length ref) where
  is_greater-word :
      byte q (suc i) < 256
      → byte ref (suc i) < 256
      → is_greater q ref i ≡ some (ltb (word ref i) (word q i))
  unfolding is_greater
  is_greater-word bq br = ground (
    arith,
    get_elem?-get_or q i 0 (omega arith),
    get_elem?-get_or q (suc i) 0 hq,
    get_elem?-get_or ref i 0 (omega arith),
    get_elem?-get_or ref (suc i) 0 hr,
    add-one i,
  )

  abbrev pub copied : List ℕ
  copied = set (set ref i (byte q i)) (suc i) (byte q (suc i))

  pub copy_pair-copied : copy_pair q ref i ≡ some copied
  unfolding copy_pair
  copy_pair-copied = ground (
    arith,
    get_elem?-get_or q i 0 (omega arith),
    get_elem?-get_or q (suc i) 0 hq,
    get_elem?-get_or ref i 0 (omega arith),
    get_elem?-get_or (set ref i (byte q i)) (suc i) 0 (omega (arith, length-set ref i (byte q i))),
    add-one i,
  )

  copied-Merged : word ref i < word q i → Merged q ref copied i
  copied-Merged h = record {
    length_same = length-set (set ref i (byte q i)) (suc i) _ ∙ length-set ref i _;
    larger = ground (
      arith,
      get_or-set_ne (set ref i (byte q i)) (suc i) i (byte q (suc i)) 0,
      get_or-set_self ref i (byte q i) 0,
      get_or-set_self (set ref i (byte q i)) (suc i) (byte q (suc i)) 0,
      length-set ref i (byte q i),
    );
    elsewhere = λ j n n'.
        get_or-set_ne (set ref i (byte q i)) (suc i) j _ 0 (ground arith)
        ∙ get_or-set_ne ref i j _ 0 (ground arith);
  }

  kept-Merged : word q i ≤ word ref i → Merged q ref ref i
  kept-Merged h = record { length_same = refl; larger = omega arith; elsewhere = λ j n n'. refl }

  merge_pair-Merged :
      byte q (suc i) < 256
      → byte ref (suc i) < 256
      → (ys : List ℕ) × (merge_pair q ref i ≡ some ys) × Merged q ref ys i
  unfolding merge_pair
  merge_pair-Merged bq br = elim (Bool-cases (ltb (word ref i) (word q i))) [
    | inl e ↦ (
      copied,
      rw (is_greater-word bq br) (rw (e, copy_pair-copied)),
      copied-Merged (ltb→lt _ _ e),
    )
    | inr e ↦ (ref, rw (is_greater-word bq br) (rw e), kept-Merged (ltb→le _ _ e))
  ]

-- All entries are bytes.
abbrev pub Bytes : List ℕ → Type 0
Bytes xs = (i : ℕ) → byte xs i < 256

-- `ys` holds the larger words at `i`, `i + 2`, ..., `n` of them, and is `ref` elsewhere.
pub record MergedWords (q ref ys : List ℕ) (i n : ℕ) : Type 0 where
  pub length_same : length ys ≡ length ref
  pub larger :
      (k : ℕ) → k < n → word ys (i + k * 2) ≡ max (word q (i + k * 2)) (word ref (i + k * 2))
  pub before : (j : ℕ) → j < i → byte ys j ≡ byte ref j
  pub behind : (j : ℕ) → i + n * 2 ≤ j → byte ys j ≡ byte ref j

module _ (q ref ref' ys : List ℕ) (i n : ℕ) (one : Merged q ref ref' i)
    (more : MergedWords q ref' ys (suc (suc i)) n) where
  larger-suc :
      (k : ℕ) → k < suc n → word ys (i + k * 2) ≡ max (word q (i + k * 2)) (word ref (i + k * 2))
  larger-suc zero h = rw (add-zero i) (
      let b0 : byte ys i ≡ byte ref' i = more.before i (omega arith) in
      let b1 : byte ys (suc i) ≡ byte ref' (suc i) = more.before (suc i) (omega arith) in
      rw (b0, b1) one.larger)
  larger-suc (suc k) h =
      let e : i + suc k * 2 ≡ suc (suc i) + k * 2 = omega arith in
      let l = more.larger k (omega arith) in
      let r0 : byte ref' (suc (suc i) + k * 2) ≡ byte ref (suc (suc i) + k * 2) =
        one.elsewhere _ (omega arith) (omega arith) in
      let r1 : byte ref' (suc (suc (suc i) + k * 2)) ≡ byte ref (suc (suc (suc i) + k * 2)) =
        one.elsewhere _ (omega arith) (omega arith) in
      rw e (rw (r0, r1) at l)

  MergedWords-suc : MergedWords q ref ys i (suc n)
  MergedWords-suc = record {
    length_same = more.length_same ∙ one.length_same;
    larger = larger-suc;
    before = λ j h. more.before j (omega arith) ∙ one.elsewhere j (omega arith) (omega arith);
    behind = λ j h. more.behind j (omega arith) ∙ one.elsewhere j (omega arith) (omega arith);
  }

-- Where both buffers hold the bytes of the loop, the loop returns a buffer of the same length: each
-- word that it visits is the larger of the two, by value, and every other byte is that of the kept
-- buffer.
pub merge_words-MergedWords :
    (q ref : List ℕ) (i n : ℕ)
    → i + n * 2 ≤ length q
    → i + n * 2 ≤ length ref
    → Bytes q
    → ((j : ℕ) → i ≤ j → byte ref j < 256)
    → (ys : List ℕ) × (merge_words q ref i n ≡ some ys) × MergedWords q ref ys i n
unfolding merge_words
merge_words-MergedWords q ref i zero hq hr bq br = (
  ref,
  refl,
  record {
    length_same = refl;
    larger = λ k h. elim h [ ];
    before = λ j h. refl;
    behind = λ j h. refl;
  },
)
merge_words-MergedWords q ref i (suc n) hq hr bq br =
    let (ref', e, one) =
      merge_pair-Merged q ref i (omega arith) (omega arith) (bq (suc i))
        (br (suc i) (omega arith)) in
    let (ys, e', more) =
      merge_words-MergedWords q ref' (suc (suc i)) n (omega arith) (omega (arith, one.length_same))
        bq (λ j h. rw (one.elsewhere j (omega arith) (omega arith)) (br j (omega arith))) in
    (ys, rw e e', MergedWords-suc q ref ref' ys i n one more)
