-- ===== src/Dns/ReplyQueue/Runs.antt =====
-- Runs of a queue of replies: replies are sent in the order in which they were accepted.
use pweb.Prelude.{
  ℕ, ◌≤◌, ◌<◌, List-cases, ◌≡◌, refl, ◌∙◌, inl, inr, Bool, true, false, List, [], ◌∷◌, ◌++◌,
  append_assoc, append-nil, length, length-append, leb, if◌then◌else◌, Bool-cases, arith, ap,
}
use pweb.Dns.Wire.{Result, ok}
use pweb.Dns.Wire.Laws.{Result-cases}
use pweb.Dns.Query.{DnsQuery}
use pweb.Dns.ReplyQueue.{
  ReplyQueue, new_queue, Message, Effect, sends, queues, drops, throws, rests, send_reply,
  handle_send_reply,
}

-- The queue with what has happened: the queries accepted for a reply, those whose reply was handed
-- to the socket, the messages handed to it, all in order, and whether a reply has thrown an
-- exception.
pub record World : Type 0 where
  pub speaker : ReplyQueue
  pub accepted : List DnsQuery
  pub sent : List DnsQuery
  pub written : List Message
  pub failed : Bool

unfoldable pub start : World
start = record { speaker = new_queue; accepted = []; sent = []; written = []; failed = false }

-- What has been accepted and sent after an effect.
abbrev pub observe : World → ReplyQueue × Effect → World
observe w (s, sends q m) = record w {
  speaker = s;
  sent = w.sent ++ q ∷ [];
  written = w.written ++ m ∷ [];
}
observe w (s, queues q) = record w { speaker = s }
observe w (s, drops q) = record w { speaker = s }
observe w (s, throws e) = record w { speaker = s; failed = true }
observe w (s, rests) = record w { speaker = s }

-- The messages of queries, in order.
abbrev pub Composed : (DnsQuery → Result Message) → List DnsQuery → List Message → Type 0
Composed compose [] [] = Unit {0}
Composed compose [] (m ∷ ms) = ⊥
Composed compose (q ∷ qs) [] = ⊥
Composed compose (q ∷ qs) (m ∷ ms) = (compose q ≡ ok m) × Composed compose qs ms

Composed-snoc :
    (compose : DnsQuery → Result Message) (qs : List DnsQuery) (ms : List Message) (q : DnsQuery)
    (m : Message)
    → Composed compose qs ms
    → compose q ≡ ok m
    → Composed compose (qs ++ q ∷ []) (ms ++ m ∷ [])
Composed-snoc compose [] [] q m c e = (e, tt)
Composed-snoc compose [] (n ∷ ms) q m c e = absurd c
Composed-snoc compose (p ∷ qs) [] q m c e = absurd c
Composed-snoc compose (p ∷ qs) (n ∷ ms) q m c e = (c.0, Composed-snoc compose qs ms q m c.1 e)

-- Whether a reply to a query is accepted: unless the buffer is full.
abbrev pub accepts : ℕ → DnsQuery → ReplyQueue → List DnsQuery
accepts capacity q s =
    if s.send_in_progress then if leb capacity (length s.reply_buf) then [] else q ∷ [] else q ∷ []

unfoldable pub reply : ℕ → (DnsQuery → Result Message) → DnsQuery → World → World
reply capacity compose q w =
    observe (record w { accepted = w.accepted ++ accepts capacity q w.speaker })
      (send_reply capacity compose q w.speaker)

unfoldable pub sent_one : ℕ → (DnsQuery → Result Message) → World → World
sent_one capacity compose w = observe w (handle_send_reply capacity compose w.speaker)

-- The worlds that a run leads to: replies come at any time, and the socket reports the end of a send
-- that is in progress. After an exception there is no send to report, while `send_in_progress` stays
-- set: one that is thrown in a reader's `try` is caught there, so that more replies can follow; one
-- that is thrown elsewhere ends the program.
pub data Reaches (capacity : ℕ) (compose : DnsQuery → Result Message) : World → Type 0 where
  starts : Reaches capacity compose start
  replies :
      {w : World} (q : DnsQuery)
      → Reaches capacity compose w
      → Reaches capacity compose (reply capacity compose q w)
  reports :
      {w : World}
      → Reaches capacity compose w
      → w.failed ≡ false
      → w.speaker.send_in_progress ≡ true
      → Reaches capacity compose (sent_one capacity compose w)

-- What holds between calls.
pub record IsSound (capacity : ℕ) (compose : DnsQuery → Result Message) (w : World) : Type 0 where
  pub in_order : w.failed ≡ false → w.accepted ≡ w.sent ++ w.speaker.reply_buf
  pub bounded : length w.speaker.reply_buf ≤ capacity
  pub idle_empty : w.speaker.send_in_progress ≡ false → w.speaker.reply_buf ≡ []
  pub composed : Composed compose w.sent w.written

module _ (capacity : ℕ) (compose : DnsQuery → Result Message) where
  start-IsSound : IsSound capacity compose start
  unfolding start
  start-IsSound = record {
    in_order = λ e. refl;
    bounded = omega arith;
    idle_empty = λ e. refl;
    composed = tt;
  }

  reply-IsSound :
      (q : DnsQuery) (w : World)
      → IsSound capacity compose w
      → IsSound capacity compose (reply capacity compose q w)
  unfolding reply send_reply
  reply-IsSound q w s = elim (Bool-cases w.speaker.send_in_progress) [
    | inl busy ↦ elim (Bool-cases (leb capacity (length w.speaker.reply_buf))) [
      | inl full ↦
          rw (busy, full, reply, send_reply)
            (record {
              in_order = λ g. rw append-nil (s.in_order g);
              bounded = s.bounded;
              idle_empty = λ e. absurd (cc e);
              composed = s.composed;
            })
      | inr room ↦
          rw (busy, room, reply, send_reply)
            (record {
              in_order = λ g. rw (s.in_order g) (append_assoc w.sent w.speaker.reply_buf (q ∷ []));
              bounded =
                  let few : length w.speaker.reply_buf < capacity = ground (arith, room) in
                  omega (arith, length-append w.speaker.reply_buf (q ∷ []), few);
              idle_empty = λ e. absurd (cc e);
              composed = s.composed;
            })
    ]
    | inr idle ↦
        let empty = s.idle_empty idle in
        let same_accepted : w.failed ≡ false → w.accepted ≡ w.sent =
          λ g. s.in_order g ∙ rw (empty, append-nil) in
        elim (Result-cases (compose q)) [
          | inl (m, e) ↦
              rw (idle, e, reply, send_reply)
                (record {
                  in_order = λ g. rw (empty, append-nil, same_accepted g);
                  bounded = s.bounded;
                  idle_empty = λ g. empty;
                  composed = Composed-snoc compose w.sent w.written q m s.composed e;
                })
          | inr (e, r) ↦
              rw (idle, r, reply, send_reply)
                (record {
                  in_order = λ g. absurd (cc g);
                  bounded = s.bounded;
                  idle_empty = λ g. empty;
                  composed = s.composed;
                })
        ]
  ]

  sent_one-IsSound :
      (w : World)
      → IsSound capacity compose w
      → w.failed ≡ false
      → IsSound capacity compose (sent_one capacity compose w)
  unfolding sent_one handle_send_reply send_reply
  sent_one-IsSound w s f = elim (List-cases w.speaker.reply_buf) [
    | inl empty ↦
        rw (empty, sent_one, handle_send_reply)
          (record {
            in_order = s.in_order;
            bounded = s.bounded;
            idle_empty = λ g. empty;
            composed = s.composed;
          })
    | inr (q, rest, first) ↦ elim (Result-cases (compose q)) [
      | inl (m, e) ↦
          rw (first, e, sent_one, handle_send_reply, send_reply)
            (record {
              in_order = λ g. s.in_order g ∙ rw (first, append_assoc);
              bounded = omega (arith, s.bounded, ap length first);
              idle_empty = λ g. absurd (cc g);
              composed = Composed-snoc compose w.sent w.written q m s.composed e;
            })
      | inr (e, r) ↦
          rw (first, r, sent_one, handle_send_reply, send_reply)
            (record {
              in_order = λ g. absurd (cc g);
              bounded = omega (arith, s.bounded, ap length first);
              idle_empty = λ g. absurd (cc g);
              composed = s.composed;
            })
    ]
  ]

-- In every run of a queue of replies: unless a reply has thrown an exception, the queries
-- accepted are those whose replies were handed to the socket and then those that wait, in order; at
-- most the capacity wait; none waits while no send is in progress; and the messages handed to the
-- socket are those composed for the queries, in order.
pub Reaches-IsSound :
    (capacity : ℕ) (compose : DnsQuery → Result Message) (w : World)
    → Reaches capacity compose w
    → IsSound capacity compose w
Reaches-IsSound capacity compose _ starts = start-IsSound capacity compose
Reaches-IsSound capacity compose _ (replies {w} q r) =
    reply-IsSound capacity compose q w (Reaches-IsSound capacity compose w r)
Reaches-IsSound capacity compose _ (reports {w} r f b) =
    sent_one-IsSound capacity compose w (Reaches-IsSound capacity compose w r) f
