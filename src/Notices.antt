-- ===== src/Notices.antt =====
-- The socket over which Renga says that jobs are waiting: agent/src/notices.rs.
--
-- Times are nanoseconds. Each reading of the clock, of the cancellation or of the socket, each frame
-- that is sent and each random number is one tick, and the environment answers by the tick. A frame
-- comes as the JSON reader has it.
pub mod Notes
pub mod Raised
pub mod Outages
pub mod Waiting
pub mod Reconnect
mod Examples
use renga.Prelude.{
  ℕ, zero, suc, ◌+◌, ◌-◌, ◌*◌, ◌/◌, ◌%◌, min, max, Bool, true, false, ◌&&◌, ◌||◌, not, Option, none,
  some, List, [], ◌∷◌, ◌++◌, ltb, leb, ◌==◌, if◌then◌else◌, Result, ok, err, Stateful, pure, raise,
  gets, ◌>>=◌, ◌>>◌, modify,
}
use renga.Bytes.{Bytes, bytes_eq}
use renga.Bytes.Literals.{codes}

-- The payload is given by what is read of it: `status` is "ok", and `jobs_waiting` is true in it.
pub record Frame : Type 0 where
  pub topic : Bytes
  pub event : Bytes
  pub reference : Option Bytes
  pub accepted : Bool
  pub jobs_waiting : Bool

-- How reading the socket ends, and how flushing it does.
pub data Read : Type 0 where
  text : Frame → Read
  other_message read_timed_out read_failed : Read

pub data Flushed : Type 0 where
  flushed flush_timed_out flush_failed : Flushed

pub data Message : Type 0 where
  unavailable went_silent closed_by_renga join_refused no_join_reply socket_error : Message

pub record ListenError : Type 0 where
  pub message : Message
  pub joined : Bool

-- `unfinished` is a loop that has not ended after the rounds that are looked at.
pub data Stop : Type 0 where
  failed : ListenError → Stop
  unfinished : Stop

pub record Environment : Type 0 where
  pub now : ℕ → ℕ
  pub cancelled : ℕ → Bool
  pub connects : ℕ → Bool
  pub sends : ℕ → Bool
  pub reads : ℕ → Read
  pub flushes : ℕ → Flushed
  pub random : ℕ → ℕ

-- `raised` is the flag of `Notices`; `heard` is every frame that was read, and `slept` how long the
-- thread was put to sleep each time.
pub record Socket : Type 0 where
  pub tick : ℕ
  pub raised : Bool
  pub heard : List Frame
  pub slept : List ℕ

abbrev pub Action : Type 0 → Type 0
Action = Stateful Socket Stop

abbrev pub second : ℕ
second = 1000000000

abbrev pub heartbeat : ℕ
heartbeat = 30 * second

abbrev pub silence_limit : ℕ
silence_limit = 75 * second

abbrev pub first_retry : ℕ
first_retry = second

abbrev pub max_retry : ℕ
max_retry = 300 * second

abbrev pub fail : {A : Type 0} → Message → Action A
fail message = raise (failed (record { message = message; joined = false }))

abbrev pub fail_joined : {A : Type 0} → Message → Action A
fail_joined message = raise (failed (record { message = message; joined = true }))

abbrev pub raise_notice : Action Unit
raise_notice = modify (λ s. record s { raised = true })

-- `Notices::take`
abbrev pub take_notice : Socket → Bool × Socket
take_notice s = (s.raised, record s { raised = false })

abbrev pub ask : {A : Type 0} → (ℕ → A) → Action A
ask f s = (ok (f s.tick), record s { tick = suc s.tick })

-- A frame that is read is kept in `heard`.
abbrev pub hear : Read → List Frame → List Frame
hear (text f) heard = heard ++ f ∷ []
hear _ heard = heard

abbrev pub read : Environment → Action Read
read env s =
    (ok (env.reads s.tick), record s { tick = suc s.tick; heard = hear (env.reads s.tick) s.heard })

unfoldable pub is_join_reply : Bytes → Frame → Bool
is_join_reply topic f =
    bytes_eq f.topic topic
    && bytes_eq f.event (codes "phx_reply")
    && (elim f.reference [ none ↦ false | some r ↦ bytes_eq r (codes "1") ])

unfoldable pub says_waiting : Bytes → Frame → Bool
says_waiting topic f = bytes_eq f.topic topic && bytes_eq f.event (codes "jobs_waiting")

unfoldable pub says_closed : Bytes → Frame → Bool
says_closed topic f =
    bytes_eq f.topic topic
    && (bytes_eq f.event (codes "phx_error") || bytes_eq f.event (codes "phx_close"))

module _ (env : Environment) (topic : Bytes) where
  -- What the loop of `await_join` does with what was read; `again` is the rest of the loop.
  unfoldable pub await_read : Action Frame → Read → Action Frame
  await_read again (text f) = if is_join_reply topic f then pure f else again
  await_read again other_message = again
  await_read again read_timed_out = again
  await_read again read_failed = fail socket_error

  unfoldable pub await_each : ℕ → ℕ → Action Frame
  await_each zero deadline = raise unfinished
  await_each (suc fuel) deadline = do
    now ← ask env.now
    if not (ltb now deadline) then fail no_join_reply else (do
      stop ← ask env.cancelled
      if stop
          then fail no_join_reply
          else (do answer ← read env; await_read (await_each fuel deadline) answer))

  unfoldable pub await_join : ℕ → ℕ → Action Frame
  await_join fuel timeout = do started ← ask env.now; await_each fuel (started + timeout)

  -- The state of the loop of `listen_with_timing`, but for the socket.
  pub record Loop : Type 0 where
    pub next_ref : ℕ
    pub next_heartbeat : ℕ
    pub last_heard : ℕ

  unfoldable pub heard_frame : Frame → Action Unit
  heard_frame f =
      if says_waiting topic f
      then raise_notice
      else if says_closed topic f
      then fail_joined closed_by_renga
      else pure tt

  unfoldable pub flush_result : Flushed → Action Unit
  flush_result flushed = pure tt
  flush_result flush_timed_out = pure tt
  flush_result flush_failed = fail_joined socket_error

  -- What a round does with what was read, and when the socket was last heard after it.
  unfoldable pub take_read : ℕ → Read → Action ℕ
  take_read last_heard (text f) = do now ← ask env.now; heard_frame f; pure now
  take_read last_heard other_message = ask env.now
  take_read last_heard read_timed_out = do
    result ← ask env.flushes
    flush_result result
    pure last_heard
  take_read last_heard read_failed = fail_joined socket_error

  unfoldable pub send_heartbeat : ℕ → Loop → Action Loop
  send_heartbeat now l =
      if leb l.next_heartbeat now
      then (do
        sent ← ask env.sends
        if sent
            then pure (record l { next_ref = l.next_ref + 1; next_heartbeat = now + heartbeat })
            else fail_joined socket_error)
      else pure l

  unfoldable pub listen_each : ℕ → Loop → Action Unit
  listen_each zero l = raise unfinished
  listen_each (suc fuel) l = do
    stop ← ask env.cancelled
    if stop then pure tt else (do
      now ← ask env.now
      if ltb silence_limit (now - l.last_heard) then fail_joined went_silent else (do
        beaten ← send_heartbeat now l
        answer ← read env
        heard_at ← take_read beaten.last_heard answer
        listen_each fuel (record beaten { last_heard = heard_at })))

  unfoldable pub after_join : ℕ → Frame → Action Unit
  after_join fuel reply = if not reply.accepted then fail join_refused else (do
    if reply.jobs_waiting then raise_notice else pure tt
    now ← ask env.now
    heard ← ask env.now
    listen_each fuel
        (record { next_ref = 2; next_heartbeat = now + heartbeat; last_heard = heard }))

  unfoldable pub listen : ℕ → ℕ → Action Unit
  listen fuel timeout = do
    connected ← ask env.connects
    if not connected then fail unavailable else (do
      sent ← ask env.sends
      if not sent
          then fail socket_error
          else (do reply ← await_join fuel timeout; after_join fuel reply))
