-- ===== src/Sender/Numbers.antt =====
-- The numbers of the packets over a run of the sender.
use zynq_lwip_frtos.Base.{
  ℕ, zero, suc, ◌+◌, ◌<◌, ◌-◌, ◌%◌, ◌≡◌, refl, Option, some, List, [], ◌∷◌, ◌++◌, arith, get_elem?,
  get_elem?-set_self, get_elem?-some, subst, ap, ◌∙◌, set, ltb, ◌==◌, if◌then◌else◌, wrap8, ◌>>=◌,
}
use zynq_lwip_frtos.Sender.{
  err_ok, udp_send, UdpSender, Link, renumber, send_payload, send_sender, send_link, send_udp_data,
}

-- n packets, all of them sent.
unfoldable pub send_times : ℕ → Link → Option Link
send_times zero s = some s
send_times (suc n) s = do (err, s') ← send_udp_data err_ok s; send_times n s'

-- The number in the buffer after n packets, if it is `start` at first.
unfoldable pub number_after : ℕ → ℕ → ℕ
number_after start n = if ltb n 10 then (start + n) % 256 else (n - 10) % 256

-- The state of the sender after n packets.
pub record Sent (start : ℕ) (s : Link) (n : ℕ) : Type 0 where
  pub sender : UdpSender
  pub payload : List ℕ
  pub holds : s.sender ≡ some sender
  pub buffer : sender.udp_pbuf ≡ some payload
  pub number : get_elem? payload 2 ≡ some (number_after start n)
  pub counted : s.count ≡ n % 256

number_after-suc :
    (start n : ℕ)
    → (if (n % 256 + 1) % 256 == 10 then 0 else (number_after start n + 1) % 256)
      ≡ number_after start (suc n)
unfolding number_after
number_after-suc start n = ground arith

-- The sender after one more packet.
abbrev sent_once : (start : ℕ) (s : Link) (n : ℕ) → Sent start s n → Link
sent_once start s n v = record {
  sender =
      some (record v.sender { udp_pbuf = some (set v.payload 2 (number_after start (suc n))) });
  count = wrap8 (s.count + 1);
  calls = s.calls ++ udp_send v.payload ∷ [];
}

next-number :
    (start : ℕ) (s : Link) (n : ℕ) (v : Sent start s n)
    → (if wrap8 (s.count + 1) == 10 then 0 else wrap8 (number_after start n + 1))
      ≡ number_after start (suc n)
next-number start s n v = rw v.counted (number_after-suc start n)

renumber-sent_once :
    (start : ℕ) (s : Link) (n : ℕ) (v : Sent start s n)
    → renumber v.sender v.payload
        (record s { count = wrap8 (s.count + 1); calls = s.calls ++ udp_send v.payload ∷ [] })
      ≡ some (sent_once start s n v)
unfolding renumber
renumber-sent_once start s n v = rw v.number (
    ap
      (λ k. some (record s {
        sender = some (record v.sender { udp_pbuf = some (set v.payload 2 k) });
        count = wrap8 (s.count + 1);
        calls = s.calls ++ udp_send v.payload ∷ [];
      }))
      (next-number start s n v))

send_udp_data-sent_once :
    (start : ℕ) (s : Link) (n : ℕ) (v : Sent start s n)
    → send_udp_data err_ok s ≡ some (err_ok, sent_once start s n v)
unfolding send_udp_data send_link send_sender send_payload
send_udp_data-sent_once start s n v =
    let sent : send_payload err_ok v.sender v.payload s ≡ some (err_ok, sent_once start s n v) =
      ap (λ o. do s' ← o; some (err_ok, s')) (renumber-sent_once start s n v) in
    ap (λ o. send_link err_ok o s) v.holds
    ∙ ap (λ b. send_sender err_ok v.sender b s) v.buffer
    ∙ sent

sent_once-Sent :
    (start : ℕ) (s : Link) (n : ℕ) (v : Sent start s n) → Sent start (sent_once start s n v) (suc n)
sent_once-Sent start s n v = record {
  sender = record v.sender { udp_pbuf = some (set v.payload 2 (number_after start (suc n))) };
  payload = set v.payload 2 (number_after start (suc n));
  holds = refl;
  buffer = refl;
  number = get_elem?-set_self v.payload 2 _ (get_elem?-some v.payload 2 v.number);
  counted = omega (arith, v.counted);
}

send_times-Sent :
    (start k n : ℕ) (s : Link)
    → Sent start s n
    → (s' : Link) × (send_times k s ≡ some s') × Sent start s' (k + n)
unfolding send_times
send_times-Sent start zero n s v = (s, refl, subst (Sent start s) (omega arith) v)
send_times-Sent start (suc k) n s v =
    let (s', e, v') =
      send_times-Sent start k (suc n) (sent_once start s n v) (sent_once-Sent start s n v) in
    (s', rw (send_udp_data-sent_once start s n v) e, subst (Sent start s') (omega arith) v')

-- A sender that starts with the count 0 and a buffer whose third byte is `start` sends any number of
-- packets, if lwIP accepts them; after n packets the number in its buffer is start + n modulo 256
-- for n below 10, and n - 10 modulo 256 from then on, whatever it started with.
pub send_times-number :
    (n start : ℕ) (s : Link) (sender : UdpSender) (payload : List ℕ)
    → s.sender ≡ some sender
    → sender.udp_pbuf ≡ some payload
    → get_elem? payload 2 ≡ some start
    → start < 256
    → s.count ≡ 0
    → (s' : Link) × (send_times n s ≡ some s') × Sent start s' n
unfolding number_after
send_times-number n start s sender payload hs hb hn small hc =
    let v : Sent start s 0 = record {
      sender = sender;
      payload = payload;
      holds = hs;
      buffer = hb;
      number = hn ∙ ap some (omega (arith, small));
      counted = hc;
    } in
    let (s', e, v') = send_times-Sent start n 0 s v in
    (s', e, subst (Sent start s') (omega arith) v')
