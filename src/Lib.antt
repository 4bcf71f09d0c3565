-- ===== src/Lib.antt =====
-- pWeb: a DNS gateway in front of home agents, and the peers of the overlay that the home agents
-- form. This library models the parts of the program that have logic of their own and proves what
-- makes them correct. Paths are from the repository's root.
--
-- Dns is the gateway, dnsgw. A client's message is a header of twelve bytes (Dns/Header, class
-- `dns_query_header` of dnsgw/dnsspeaker.hpp) and sections. `parse_dns_query` of
-- dnsgw/dnsspeaker.cpp reads the sections into a `dnsquery` (Dns/Query), which the gateway fills
-- with answers; `compose_dns_header` and `compose_dns_response` make the response. Dns/Name has
-- the names (`parse_name`, `write_name` and their helpers), Dns/Record the questions and records
-- (`parse_question`, `parse_rr`, both functions `write_rr`). Dns/Wire has the helpers of
-- shared/protocol_helper.hpp: a reading cursor is the bytes from `buf` to `end`, a writing cursor
-- what has been written and the room left, and `parse_error` is an error value. `boost::tokenizer`
-- is a parameter; what its documentation says of it is the hypothesis `IsTokenizer`. The loop of
-- `parse_name` runs on as many rounds as the buffer has bytes and one more, and every round but the
-- last takes a byte, so that this is enough.
--
-- Dns/ReplyQueue is the queue of replies that both speakers of dnsgw/dnsspeaker.cpp have
-- (`send_reply_`, `handle_send_reply`): a state with the flag `send_in_progress_` and the circular
-- buffer, and an effect for what a call does to the socket. Its child Runs has the runs as a
-- relation: replies at any time, reports of the socket while a send is in progress, and after an
-- exception, which a reader's `try` may have caught, replies only. Dns/UdpSpeaker is class
-- `udp_dnsspeaker`, with 50 replies in the queue and 500 bytes for each; Dns/DnsConnection is class
-- `dns_connection`, with 5 and 1024, and with a function for each handler that reads a query behind
-- its length; whether the processor, which the speaker is given, throws an exception at a query is a
-- parameter.
--
-- Dns/LoadBalancer is dnsgw/haloadbalancer.cpp. A home agent is any type with a test for whether it
-- is enabled; the loop has as many rounds as there are home agents, as in the source.
-- Dns/QueryMap is class `querymap` of dnsgw/haproxy.cpp with the timers of its queries, seen as the
-- timers that run and the handlers that are due.
--
-- Dns/HaRequest is the request of dnsgw/haproxy.cpp to a home agent (`remove_suffix`, the functions
-- `write_abs_*`, class `hasendconnection`), and Dns/HaReply the reply (class `harecvconnection`): a
-- function for each handler, over the bytes that the home agent sends until it closes the
-- connection, and the end that the connection comes to. Both sides of that protocol are here: their
-- children named Interop relate the request to `PeerInitiateGET` and the reply to `MessageGET_REPLY`
-- of the overlay. `ip::address::from_string` is a parameter.
--
-- Dns/Instrumenter is class `udp_instrumenter` of dnsgw/instrumenter.cpp: the buffer of metrics, the
-- timer, which may end while it is cancelled, and the datagrams given to the socket. A metric is its
-- serialized text.
--
-- Crawler/HomeAgentDb is crawler_manager/homeagentdb.cpp, the database of the crawler's manager: a
-- state with the queue, the set and the lists of the pollers, and one function for each operation,
-- which is `none` where the program would read the end of a map or fail an assertion. Counts say how
-- often a home agent is in a list. Its child Calls has sequences of these calls in the order in
-- which the pollers can make them.
--
-- Crawler/Protocol is crawler_protocol, by which the parts of the crawler talk: the header of
-- messages.hpp, and `bufwrite` and `bufread` of bufreadwrite.cpp. The socket is what it is given and
-- the handlers that are due; the callbacks are what they are given. Dns/DnsConnection and
-- Crawler/Protocol take messages from a stream with Prelude/Stream, in one round more than the
-- stream has bytes, since every round takes bytes.
--
-- Klink is the overlay, dnsgw_test_ha/klink/plnode. Klink/Codec has the `memcpy` sequences by
-- which messages are laid out, Klink/OverlayId the identifiers (ds/overlay_id.h), Klink/Message
-- the base class of message/message.h, and a module below it one subclass each of
-- message/p2p and message/control: `get_size` is `getSize`, `put_own` and `get_own` are what the
-- subclass adds to `serialize` and `deserialize`. An `int` is its 32-bit pattern, a `double` its
-- 64-bit pattern, both low byte first. A buffer that is overrun, when it is filled or when it is
-- read, is `none`.
--
-- Klink/LookupTable is ds/lookup_table.h, a `std::map`, as the list of its pairs in the order of
-- the keys; Klink/LookupTable/Iterate has ds/lookup_table_iterator.h. Klink/OverlayId/Prefix has
-- the matching of prefixes, which is the source's for identifiers of at most 32 bits: it shifts an
-- `int` by the position of a bit. Klink/Message/Init uses both for the routing table that a peer is
-- started with.
--
-- Klink/HostAddress has the comparisons of ds/host_address.h.
--
-- Klink/NextHop is `setNextHop` of protocol/plexus/plexus_protocol.h: the routing table, the
-- proactive cache and the cache are searched in turn for the identifier that matches the target of
-- a message best. The cache is the list of its nodes from the head, and a lookup moves a node
-- there. An identifier that the source leaves uninitialised is the argument `created`.
--
-- Klink/Dll is ds/double_linked_list.h: nodes at addresses of a heap, and the functions of the list
-- as commands that read and write them; a use of a null pointer or of a node that is not there is
-- `none`. Dll/Links says which nodes a list goes through, Dll/Steps, Guards, Relink, Ends, Moves and
-- Removes what the commands do to them. Klink/Cache is ds/cache.h with cache_replace_LRU.h,
-- cache_insert_endpoint.h and cache_iterator.h: a table of nodes and the list that orders them by
-- use. The address of a new node is an argument. Cache/View has the list of entries that the nodes
-- stand for, and Cache/Lru what holds between the operations.
--
-- Klink/Plexus is the state of a peer with the queues of protocol/plexus/plexus_protocol.h, and
-- Plexus/Process and Plexus/Control are `processMessage` of plexus_message_processor.h, the first for
-- the messages that `setNextHop` routes. A message is the object that its type says it is; the types
-- that `setNextHop` passes by are constructors of their own. Plexus/Client has `put`, `get`,
-- `get_for_client` and the dispatch. The cache is there the list of its entries, as Klink/Cache
-- serves it. What objects hold that a constructor leaves unset, `urlHash`, `atoi`, the identifier
-- that the code makes of a number and the time are parameters, the record `World`.
--
-- Not modelled: sockets, threads and logs; the web server (third-party); start-up and test programs;
-- the loops that accept connections; the connections, the parser and the poller of the crawler; and
-- of the overlay the codes (third-party), the control from the monitor, and the peer's own files.
pub mod Prelude
pub mod Dns
pub mod Crawler
pub mod Klink
