-- ===== src/Dns/ReplyQueue/Drain.antt =====
-- What waits in a queue of replies is sent.
use pweb.Prelude.{
  ℕ, zero, suc, ◌≡◌, refl, sym, ap, ◌∙◌, true, false, List, [], ◌∷◌, ◌++◌, append_assoc, append-nil,
  length,
}
use pweb.Dns.Wire.{Result, ok}
use pweb.Dns.Query.{DnsQuery}
use pweb.Prelude.{All}
use pweb.Dns.ReplyQueue.{new_queue, Message, send_reply, handle_send_reply}
use pweb.Dns.ReplyQueue.Runs.{World, sent_one, Reaches, Reaches-IsSound}

module _ (capacity : ℕ) (compose : DnsQuery → Result Message) where
  -- The socket reports `n` times.
  abbrev pub drain : ℕ → World → World
  drain zero w = w
  drain (suc n) w = drain n (sent_one capacity compose w)

  abbrev pub CanCompose : DnsQuery → Type 0
  CanCompose q = (m : Message) × (compose q ≡ ok m)

  drain_buffer :
      (buf : List DnsQuery) (w : World)
      → w.speaker.reply_buf ≡ buf
      → All CanCompose buf
      → ((drain (suc (length buf)) w).sent ≡ w.sent ++ buf)
        × ((drain (suc (length buf)) w).speaker ≡ new_queue)
  unfolding sent_one handle_send_reply send_reply
  drain_buffer [] w e all = rw (e, sent_one, handle_send_reply) (sym (append-nil w.sent), rw e)
  drain_buffer (q ∷ rest) w e all =
      let (m, made) = all.0 in
      let after : sent_one capacity compose w ≡ record w {
        speaker = record { send_in_progress = true; reply_buf = rest };
        sent = w.sent ++ q ∷ [];
        written = w.written ++ m ∷ [];
      } =
        rw (e, made, sent_one, handle_send_reply, send_reply) in
      let all_sent =
        drain_buffer rest (sent_one capacity compose w) (ap (λ x. x.speaker.reply_buf) after)
          all.1 in
      let first : (sent_one capacity compose w).sent ++ rest ≡ w.sent ++ q ∷ rest =
        ap (λ x. x.sent ++ rest) after ∙ append_assoc w.sent (q ∷ []) rest in
      (all_sent.0 ∙ first, all_sent.1)

  -- In a run in which no reply has thrown an exception, if a reply can be composed to every waiting
  -- query, then as many reports of the socket as queries wait, and one more, send every query that
  -- was accepted, in order, and leave the queue as a new one.
  pub drain_whole :
      (w : World)
      → Reaches capacity compose w
      → w.failed ≡ false
      → All CanCompose w.speaker.reply_buf
      → ((drain (suc (length w.speaker.reply_buf)) w).sent ≡ w.accepted)
        × ((drain (suc (length w.speaker.reply_buf)) w).speaker ≡ new_queue)
  drain_whole w r f all =
      let emptied = drain_buffer w.speaker.reply_buf w refl all in
      (emptied.0 ∙ sym ((Reaches-IsSound capacity compose w r).in_order f), emptied.1)
