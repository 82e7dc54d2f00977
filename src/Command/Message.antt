-- ===== src/Command/Message.antt =====
-- A whole message: which command it stands for, and its length in 8 bits.
use zynq_lwip_frtos.Base.{
  ℕ, zero, suc, ◌/◌, ◌%◌, ◌<◌, ◌≡◌, refl, none, some, List, [], ◌∷◌, arith, length, ltb, Bool-cases,
  if◌then◌else◌, inl, inr, wrap8,
}
use zynq_lwip_frtos.Command.Dispatch.{
  Station, States, blind_sector, get_tetrada, last_of, short_message, parse_msg,
}
use zynq_lwip_frtos.Command.Meaning.{meaning, Remembers, note-Remembers, dispatch-Remembers}

get_tetrada-last_of :
    (payload : List ℕ) (n b : ℕ)
    → last_of payload n ≡ some b
    → get_tetrada (some payload) n ≡ some (b / 16 % 16)
unfolding get_tetrada last_of
get_tetrada-last_of payload zero b h = cc
get_tetrada-last_of payload (suc n) b h = simp h

last_of-lt : (payload : List ℕ) (n b : ℕ) → last_of payload n ≡ some b → 0 < length payload
unfolding last_of
last_of-lt payload zero b h = absurd (cc)
last_of-lt [] (suc n) b h = absurd (cc)
last_of-lt (x ∷ xs) (suc n) b h = omega arith

-- The command that a message of this length stands for, given its last byte and the command before it.
abbrev pub expected : ℕ → ℕ → ℕ → ℕ
expected len b old = if ltb (wrap8 len) 6 then meaning b old else 0xC7

-- A message that has a last byte, by its length in 8 bits, is handled: the command that is remembered
-- is the one of the table for a message of less than six bytes, and "blank sector" for a longer
-- one, whatever the bytes are and whatever the state of the gain control task.
pub parse_msg-expected :
    (r : States) (s : Station) (b old : ℕ)
    → last_of s.payload (wrap8 (length s.payload)) ≡ some b
    → b < 256
    → s.last_recv_cmd ≡ some old
    → Remembers (expected (length s.payload) b old) (parse_msg r s)
unfolding parse_msg short_message
parse_msg-expected r s b old hb small h =
    let tetrada = get_tetrada-last_of s.payload (wrap8 (length s.payload)) b hb in
    rw hb (elim (Bool-cases (ltb (wrap8 (length s.payload)) 6)) [
      | inl e ↦ rw (e, tetrada) (dispatch-Remembers b old r s h small (last_of-lt s.payload _ b hb))
      | inr e ↦ rw e (note-Remembers blind_sector 0xC7 0xC7 old s h refl)
    ])

-- A message whose length is a multiple of 256, the empty one among them, makes the handler read the
-- byte before it.
pub parse_msg-multiple :
    (r : States) (s : Station) → length s.payload % 256 ≡ 0 → parse_msg r s ≡ none
unfolding parse_msg last_of
parse_msg-multiple r s h = rw h
