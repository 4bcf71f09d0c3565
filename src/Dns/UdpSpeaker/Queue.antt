-- ===== src/Dns/UdpSpeaker/Queue.antt =====
-- Runs of the UDP speaker.
use pweb.Prelude.{Bytes, List}
use pweb.Dns.ReplyQueue.Runs
use pweb.Dns.ReplyQueue.Runs.{World, Reaches, IsSound}
use pweb.Dns.UdpSpeaker.{compose_reply}

-- In every run of the UDP speaker: unless a reply has thrown an exception, the queries accepted are
-- those whose replies were handed to the socket and then those that wait, in order; at most 50
-- wait; none waits while no send is in progress; and the messages handed to the socket are those
-- composed for the queries, in order.
pub Reaches-IsSound :
    (tokens : Bytes → List Bytes) (w : World)
    → Reaches 50 (compose_reply tokens) w
    → IsSound 50 (compose_reply tokens) w
Reaches-IsSound tokens w r = pweb.Dns.ReplyQueue.Runs.Reaches-IsSound 50 (compose_reply tokens) w r
