-- ===== src/Notices/Examples.antt =====
-- An agent that is told of a job, and one that cannot reach Renga.
use renga.Prelude.{
  ◌≡◌, refl, true, false, ◌||◌, ◌&&◌, any, none, List, [], ◌∷◌, ◌++◌, leb, ◌==◌, ◌*◌, if◌then◌else◌,
  ok, err, arith,
}
use renga.Bytes.{Bytes, bytes_eq}
use renga.Bytes.Literals.{codes}
use renga.Notices.{
  Frame, text, read_timed_out, flushed, ListenError, failed, Environment, Socket, says_waiting,
  heard_frame, take_read, send_heartbeat, listen_each, after_join, listen, first_retry, second,
}
use renga.Notices.Raised.{after_join_lem}
use renga.Notices.Outages.{
  jittered, sleep_each, sleep_unless, after_sleep, sleep_through, after_listen, run_each, run,
}
use renga.Notices.Reconnect.{Follows, run-Follows}

abbrev topic : Bytes
topic = codes "installation:7"

abbrev notice : Frame
notice = record {
  topic = topic;
  event = codes "jobs_waiting";
  reference = none;
  accepted = false;
  jobs_waiting = false;
}

abbrev accepting : Frame
accepting = record {
  topic = topic;
  event = codes "phx_reply";
  reference = none;
  accepted = true;
  jobs_waiting = false;
}

-- The first read has the notice; the agent is stopped in the second round.
abbrev noticing : Environment
noticing = record {
  now = λ n. n;
  cancelled = λ n. leb 6 n;
  connects = λ n. true;
  sends = λ n. true;
  reads = λ n. if n == 4 then text notice else read_timed_out;
  flushes = λ n. flushed;
  random = λ n. 0;
}

abbrev fresh : Socket
fresh = record { tick = 0; raised = false; heard = []; slept = [] }

noticed :
    after_join noticing topic 3 accepting fresh
    ≡ (ok tt, record { tick = 7; raised = true; heard = notice ∷ []; slept = [] })
unfolding after_join listen_each send_heartbeat take_read heard_frame says_waiting bytes_eq
noticed = refl

after_join_lem_example :
    let p = after_join noticing topic 3 accepting fresh in
    (new : List Frame) × (p.1.heard ≡ [] ++ new)
    × (p.1.raised ≡ (false || (true && false) || any (says_waiting topic) new))
    × ((e : ListenError) → p.0 ≡ err (failed e) → e.joined ≡ true)
after_join_lem_example = after_join_lem noticing topic 3 accepting fresh

-- Nothing connects, and each reading of the clock is a second after the last.
abbrev unreachable : Environment
unreachable = record {
  now = λ n. n * second;
  cancelled = λ n. leb 12 n;
  connects = λ n. false;
  sends = λ n. false;
  reads = λ n. read_timed_out;
  flushes = λ n. flushed;
  random = λ n. n;
}

outages :
    (run unreachable topic second 9 first_retry 2 fresh).0
    ≡ record { joined = false; warned = true; retry = second; pause = 503000000 }
      ∷ record { joined = false; warned = false; retry = 2 * second; pause = 1010000000 }
      ∷ []
unfolding run run_each after_listen sleep_through after_sleep sleep_unless sleep_each jittered
    listen
outages = refl

run-Follows_example :
    let p = run unreachable topic second 9 first_retry 2 fresh in
    Follows unreachable topic second 9 first_retry 2 first_retry false fresh p.0 p.1
run-Follows_example = run-Follows unreachable topic second 9 first_retry (omega arith) 2 fresh
