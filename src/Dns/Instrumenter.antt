-- ===== src/Dns/Instrumenter.antt =====
-- `udp_instrumenter`, dnsgw/instrumenter.cpp: metrics are collected in a buffer and sent together in
-- one datagram, when the next does not fit or after a while.
pub mod Sound
pub mod Runs
mod Tests
use pweb.Prelude.{
  ℕ, ◌+◌, ◌-◌, ◌%◌, Bool, true, false, Bytes, List, [], ◌∷◌, ◌++◌, length, ltb, ◌==◌, if◌then◌else◌,
}

-- Of the timer, the state has whether it runs, and how many handlers are due: the timer may end
-- while a handler of the strand cancels it, and its own handler then still runs without an error.
-- Of the socket, the state has the datagrams that it was given, each with its pieces.
pub record Instrumenter : Type 0 where
  pub buf_size : ℕ
  pub buf : List Bytes
  pub armed : Bool
  pub due : ℕ
  pub sent : List (List Bytes)

unfoldable pub new_instrumenter : Instrumenter
new_instrumenter = record { buf_size = 0; buf = []; armed = false; due = 0; sent = [] }

abbrev pub max_buf_size : ℕ
max_buf_size = 65507

unfoldable pub send_now : Instrumenter → Instrumenter
send_now s = record s { buf_size = 0; buf = []; armed = false; sent = s.sent ++ s.buf ∷ [] }

-- A wait that is still there is cancelled.
unfoldable pub start_timer : Instrumenter → Instrumenter
start_timer s = record s { armed = true }

unfoldable pub push_back : Bytes → Instrumenter → Instrumenter
push_back buf s = record s {
  buf_size = (s.buf_size + length buf) % 18446744073709551616;
  buf = s.buf ++ buf ∷ [];
}

-- The three tests of `add_metric_`.
unfoldable pub make_room : Bytes → Instrumenter → Instrumenter
make_room buf s =
    if ltb max_buf_size ((s.buf_size + length buf) % 18446744073709551616) then send_now s else s

unfoldable pub send_full : Instrumenter → Instrumenter
send_full s = if s.buf_size == max_buf_size then send_now s else s

unfoldable pub time_first : Bytes → Instrumenter → Instrumenter
time_first buf s = if s.buf_size == length buf then start_timer s else s

unfoldable pub add_metric : Bytes → Instrumenter → Instrumenter
add_metric buf s = time_first buf (send_full (push_back buf (make_room buf s)))

-- The timer ends: its handler is due, with no error.
unfoldable pub timer_ends : Instrumenter → Instrumenter
timer_ends s = record s { armed = false; due = s.due + 1 }

unfoldable pub handle_nagle_timeout : Instrumenter → Instrumenter
handle_nagle_timeout s = send_now (record s { due = s.due - 1 })
