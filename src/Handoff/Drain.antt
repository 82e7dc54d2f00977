-- ===== src/Handoff/Drain.antt =====
-- The task comes to the end of its queue.
use zynq_lwip_frtos.Base.{
  ℕ, ◌≡◌, refl, sym, ◌<◌, ◌∙◌, Option, some, List, [], ◌∷◌, ◌++◌, append_assoc, append-nil, length,
  wrap8,
}
use zynq_lwip_frtos.Command.Dispatch.{States, Station, last_of}
use zynq_lwip_frtos.Command.Meaning.{Remembers, remembers}
use zynq_lwip_frtos.Command.Message.{expected, parse_msg-expected}
use zynq_lwip_frtos.Handoff.{
  Buffer, Call, parse_msg_call, pbuf_free, Inbox, parse_entry, tcp_parse_round, tcp_parse_rounds,
}
use zynq_lwip_frtos.Handoff.Queue.{Fifo}

-- A message whose last byte, found by its length in 8 bits, is `last`.
pub record Ends (p : Buffer) (last : ℕ) : Type 0 where
  pub last_byte : last_of p.payload (wrap8 (length p.payload)) ≡ some last
  pub small : last < 256

-- Buffers that end so, each with the answers for it.
pub data Messages : List Buffer → List ℕ → List States → Type 0 where
  no_message : Messages [] [] []
  message :
      {ps : List Buffer} {lasts : List ℕ} {rs : List States} (p : Buffer) (last : ℕ) (r : States)
      → Ends p last
      → Messages ps lasts rs
      → Messages (p ∷ ps) (last ∷ lasts) (r ∷ rs)

-- The queue with these buffers in it.
abbrev pub entries : List Buffer → List (Option Buffer)
entries [] = []
entries (p ∷ ps) = some p ∷ entries ps

-- The calls that handle and free them, one after the other.
abbrev pub handling : List Buffer → List Call
handling [] = []
handling (p ∷ ps) = parse_msg_call p.address ∷ pbuf_free p.address ∷ handling ps

-- The command that is remembered after them.
abbrev pub command_after : ℕ → List Buffer → List ℕ → ℕ
command_after old [] lasts = old
command_after old (p ∷ ps) [] = old
command_after old (p ∷ ps) (last ∷ lasts) =
    command_after (expected (length p.payload) last old) ps lasts

remembered :
    {cmd : ℕ} {o : Option Station}
    → Remembers cmd o
    → (st : Station) × (o ≡ some st) × (st.last_recv_cmd ≡ some cmd)
remembered (remembers {s} h) = (s, refl, h)

module _ {Q : Type 0} (f : Fifo (Option Buffer) Q) where
  -- The state after all of them.
  pub record Drained (s t : Inbox Q) (ps : List Buffer) (cmd : ℕ) : Type 0 where
    pub emptied : f.contents t.queue ≡ []
    pub calls_made : t.calls ≡ s.calls ++ handling ps
    pub command : t.station.last_recv_cmd ≡ some cmd

  round :
      (p : Buffer) (rest : List (Option Buffer)) (last old : ℕ) (r : States) (s : Inbox Q)
      → Ends p last
      → f.contents s.queue ≡ some p ∷ rest
      → s.station.last_recv_cmd ≡ some old
      → (t : Inbox Q) × (tcp_parse_round f r s ≡ some t)
        × (f.contents t.queue ≡ rest)
        × (t.calls ≡ s.calls ++ parse_msg_call p.address ∷ pbuf_free p.address ∷ [])
        × (t.station.last_recv_cmd ≡ some (expected (length p.payload) last old))
  unfolding tcp_parse_round parse_entry
  round p rest last old r s ends h command =
      let (entry, left) = f.receive_first s.queue (some p) rest h in
      let here = record s.station { payload = p.payload } in
      let (st, e, c) =
        remembered (parse_msg-expected r here last old ends.last_byte ends.small command) in
      (
        record {
          queue = (f.receive s.queue).1;
          woken = s.woken;
          calls = s.calls ++ parse_msg_call p.address ∷ pbuf_free p.address ∷ [];
          station = st;
        },
        rw (entry, e) refl,
        left,
        refl,
        c,
      )

  -- If every buffer in the queue is a message with a last byte, and a command is remembered, then in as
  -- many rounds as there are buffers the task empties the queue: it handles and frees them in their
  -- order, and remembers the command that the table of the commands gives, message by message.
  pub tcp_parse_rounds-Drained :
      (ps : List Buffer) (lasts : List ℕ) (rs : List States) (old : ℕ) (s : Inbox Q)
      → Messages ps lasts rs
      → f.contents s.queue ≡ entries ps
      → s.station.last_recv_cmd ≡ some old
      → (t : Inbox Q) × (tcp_parse_rounds f rs s ≡ some t)
        × Drained s t ps (command_after old ps lasts)
  unfolding tcp_parse_rounds
  tcp_parse_rounds-Drained ps lasts rs old s no_message h command =
      (s, refl, record { emptied = h; calls_made = sym (append-nil s.calls); command = command })
  tcp_parse_rounds-Drained ps lasts rs old s
        (message {ps = ps'} {lasts = lasts'} {rs = rs'} p last r ends more) h command =
      let (s', e, h', calls, command') = round p (entries ps') last old r s ends h command in
      let (t, e', d) = tcp_parse_rounds-Drained ps' lasts' rs' _ s' more h' command' in
      (
        t,
        rw e e',
        record {
          emptied = d.emptied;
          calls_made =
              d.calls_made
              ∙ rw calls (
                  append_assoc s.calls (parse_msg_call p.address ∷ pbuf_free p.address ∷ [])
                    (handling ps'));
          command = d.command;
        },
      )
