-- ===== src/Crawler/Protocol/Delivery.antt =====
-- From a `bufwrite` to a `bufread`.
use pweb.Prelude.{
  ◌≡◌, sym, ap, ◌∙◌, Bool, List, [], ◌∷◌, ◌++◌, append_assoc, append-nil, All, take_all-stops, refl,
}
use pweb.Crawler.Protocol.{MessageType, BufItem, BufWrite, closed, read_header, read}
use pweb.Crawler.Protocol.Sending.{Reaches, bufwrite-IsSound}
use pweb.Crawler.Protocol.Reading.{stream_of, IsReadable, read-stream_of}

left_of_append : (P : BufItem → Type 0) (xs ys : List BufItem) → All P (xs ++ ys) → All P xs
left_of_append P [] ys w = tt
left_of_append P (x ∷ xs) ys w = (w.0, left_of_append P xs ys w.1)

read-nil : (has_handler : MessageType → Bool) → (read has_handler []).0 ≡ []
unfolding read_header
read-nil has_handler = ap (λ r. r.0) (take_all-stops (read_header has_handler) [] closed refl)

read-written :
    (has_handler : MessageType → Bool) (items : List BufItem)
    → All (IsReadable has_handler) items
    → (read has_handler (stream_of items)).0 ≡ items
read-written has_handler items w =
    let whole = read-stream_of has_handler items [] w in
    let same : stream_of items ++ [] ≡ stream_of items = append-nil (stream_of items) in
    ap (λ b. (read has_handler b).0) (sym same)
    ∙ ap (λ r. r.0) whole
    ∙ rw (read-nil has_handler, append-nil)

-- In every run of a `bufwrite` in which no send has failed, if a `bufread` can take the messages
-- that were accepted, it hands to its handlers, from the bytes given to the socket, exactly the
-- messages that were accepted, in order, up to those that wait in the queue.
pub written-read :
    (has_handler : MessageType → Bool) (s : BufWrite) (accepted : List BufItem)
    → Reaches s accepted
    → s.failed ≡ []
    → All (IsReadable has_handler) accepted
    → (read has_handler (stream_of s.written)).0 ++ s.send_queue ≡ accepted
written-read has_handler s accepted r good all =
    let c = (bufwrite-IsSound s accepted r).is_complete in
    let parts : accepted ≡ s.written ++ s.send_queue =
      c.in_order good
      ∙ sym (append_assoc s.succeeded s.in_flight s.send_queue)
      ∙ ap (λ x. x ++ s.send_queue) (sym (c.on_wire good)) in
    let sent = left_of_append (IsReadable has_handler) s.written s.send_queue (rw parts at all) in
    ap (λ x. x ++ s.send_queue) (read-written has_handler s.written sent) ∙ sym parts
