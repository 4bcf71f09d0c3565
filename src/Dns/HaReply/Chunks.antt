-- ===== src/Dns/HaReply/Chunks.antt =====
-- The bytes of a `MessageGET_REPLY`, dnsgw_test_ha/klink/plnode/message/p2p/message_get_reply.h, cut
-- where the handlers of the gateway cut them, and what the handlers read of each.
use pweb.Prelude.{
  ℕ, ◌+◌, ◌-◌, ◌%◌, ◌<◌, ◌≤◌, ◌≡◌, ap, ◌∙◌, true, false, some, Bytes, [], ◌∷◌, ◌++◌, append_assoc,
  append-nil, length, length-append, take-append, drop-append, ltb, lt→ltb, leb, le→leb, arith,
}
use pweb.Klink.Codec.{
  put_int, put_char, put_double, put_string, get_int, get_int-put_int, length-put_int,
}
use pweb.Klink.OverlayId.{put_oid, sign_extend}
use pweb.Klink.Message.{AbsMessage, put_base, get_base_size}
use pweb.Klink.Message.RoundTrip.{fill_exact, put_lengths}
use pweb.Klink.Message.GetReply
use pweb.Klink.Message.GetReply.{MessageGetReply, IsMessageGetReply}
use pweb.Dns.HaReply.{async_read, last_int, size_with, sequence_of}

pub async_read-append :
    (n : ℕ) (chunk rest : Bytes)
    → length chunk ≡ n
    → n ≤ 256
    → async_read n (chunk ++ rest) ≡ some (chunk, rest)
unfolding async_read
async_read-append n chunk rest e h =
    let small : ltb 256 n ≡ false = ground (arith, h) in
    let enough : leb (length chunk) (length (chunk ++ rest)) ≡ true =
      le→leb _ _ (omega (arith, length-append chunk rest)) in
    rw (small, ← e, enough, take-append chunk rest, drop-append chunk rest)

pub last_int-append :
    (front : Bytes) (n : ℕ) → n < 4294967296 → last_int (front ++ put_int n) ≡ some n
unfolding last_int
last_int-append front n h =
    let total = length-append front (put_int n) in
    let four = length-put_int n in
    let enough : ltb (length (front ++ put_int n)) 4 ≡ false = ground (arith, total, four) in
    let at_end : length (front ++ put_int n) - 4 ≡ length front = omega (arith, total, four) in
    let read : get_int (put_int n) ≡ some (n, []) = rw append-nil at (get_int-put_int n [] h) in
    rw (enough, at_end, drop-append front (put_int n), read)

pub size_with_small : (n extra : ℕ) → n ≤ 256 → extra ≤ 256 → size_with n extra ≡ n + extra
unfolding size_with sign_extend
size_with_small n extra h k =
    let small : ltb n 2147483648 ≡ true = lt→ltb n 2147483648 (omega arith) in
    rw small (omega (arith, h, k))

-- The chunks of a message as the handlers read them.
unfoldable pub chunk1 : AbsMessage → Bytes
chunk1 b = b.message_type % 256 ∷ (put_int b.sequence_no ++ put_int (length b.dest_host))

unfoldable pub chunk2 : AbsMessage → Bytes
chunk2 b = (b.dest_host ++ put_int b.dest_port) ++ put_int (length b.source_host)

unfoldable pub unused : AbsMessage → Bytes
unused b =
    put_char b.overlay_hops
    ++ (put_char b.overlay_ttl
        ++ (put_int b.ip_hops
            ++ (put_double b.latency ++ (put_oid b.dst_oid ++ put_oid b.src_oid))))

unfoldable pub chunk3 : AbsMessage → Bytes
chunk3 b = b.source_host ++ (put_int b.source_port ++ unused b)

unfoldable pub resolution : MessageGetReply → Bytes
resolution m =
    put_int m.resolution_status
    ++ (put_int m.resolution_hops
        ++ (put_int m.resolution_ip_hops
            ++ (put_double m.resolution_latency
                ++ (put_int m.origin_seq_no ++ put_oid m.target_oid))))

unfoldable pub chunk4 : MessageGetReply → Bytes
chunk4 m = resolution m ++ put_int (length m.host_address.host_name)

unfoldable pub chunk5 : MessageGetReply → Bytes
chunk5 m =
    (m.host_address.host_name ++ put_int m.host_address.host_port) ++ put_int (length m.device_name)

unfoldable pub stream : MessageGetReply → Bytes
stream m =
    chunk1 m.base ++ (chunk2 m.base ++ (chunk3 m.base ++ (chunk4 m ++ (chunk5 m ++ m.device_name))))

pub serialize-stream :
    (m : MessageGetReply) → pweb.Klink.Message.GetReply.serialize m ≡ some (stream m)
unfolding pweb.Klink.Message.GetReply.serialize pweb.Klink.Message.GetReply.get_size
    pweb.Klink.Message.GetReply.put_own stream chunk1 chunk2 chunk3 chunk4 chunk5 unused resolution
    put_base put_string put_char get_base_size
serialize-stream m =
    let own = pweb.Klink.Message.GetReply.put_own m in
    let same : put_base m.base ++ own ≡ stream m = simp append_assoc in
    fill_exact _ (put_base m.base ++ own) (simp put_lengths (omega arith)) ∙ ap some same

pub length-chunk1 : (b : AbsMessage) → length (chunk1 b) ≡ 9
unfolding chunk1
length-chunk1 b = simp put_lengths (omega arith)

pub length-chunk2 : (b : AbsMessage) → length (chunk2 b) ≡ length b.dest_host + 8
unfolding chunk2
length-chunk2 b = simp put_lengths (omega arith)

pub length-chunk3 : (b : AbsMessage) → length (chunk3 b) ≡ length b.source_host + 42
unfolding chunk3 unused
length-chunk3 b = simp put_lengths (omega arith)

pub length-chunk4 : (m : MessageGetReply) → length (chunk4 m) ≡ 40
unfolding chunk4 resolution
length-chunk4 m = simp put_lengths (omega arith)

pub length-chunk5 : (m : MessageGetReply) → length (chunk5 m) ≡ length m.host_address.host_name + 8
unfolding chunk5
length-chunk5 m = simp put_lengths (omega arith)

pub sign_extend_small : (n : ℕ) → n ≤ 256 → sign_extend n ≡ n
unfolding sign_extend
sign_extend_small n h = rw (lt→ltb n 2147483648 (omega (arith, h)))

pub sequence_of_short : (n : ℕ) → n < 65536 → sequence_of n ≡ n
unfolding sequence_of
sequence_of_short n h = let short : ltb 65535 n ≡ false = ground (arith, h) in rw short
