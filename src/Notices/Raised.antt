-- ===== src/Notices/Raised.antt =====
-- No notice is lost: what the loop of agent/src/notices.rs does with the frames it reads.
use mathlib.Core.List.{append-nil}
use renga.Prelude.{
  ℕ, zero, suc, ◌+◌, ◌-◌, ◌≡◌, refl, sym, ap, subst, ◌∙◌, Bool, true, false, ◌&&◌, ◌||◌, not, List,
  [], ◌∷◌, ◌++◌, any, or_false, or_true, ltb, leb, if◌then◌else◌, Result, ok, err, resume, pure,
  Bool-cases, inl, inr,
}
use renga.Bytes.{Bytes}
use renga.Notices.{
  Frame, Read, text, other_message, read_timed_out, read_failed, Flushed, flushed, flush_timed_out,
  flush_failed, ListenError, Stop, failed, unfinished, Environment, Socket, Action, hear,
  raise_notice, fail, fail_joined, says_waiting, says_closed, Loop, heard_frame, flush_result,
  take_read, send_heartbeat, listen_each, after_join, silence_limit, heartbeat, socket_error,
  join_refused,
}
use renga.Notices.Notes.{SaysJoined, Notes, quiet, at_tick, resume-Notes, if-Notes}

module _ (topic : Bytes) where
  module _ (env : Environment) where
    -- A frame that was read is acted on: `t` is the state when it had been read.
    heard_frame-Notes :
        (s : Socket) (f : Frame) (tick : ℕ)
        → let t : Socket = record {
          tick = tick;
          raised = s.raised;
          heard = s.heard ++ f ∷ [];
          slept = s.slept;
        } in
          Notes topic {A = Unit} s (heard_frame env topic f t)
    unfolding heard_frame
    heard_frame-Notes s f tick = elim (Bool-cases (says_waiting topic f)) [
      | inl waiting ↦
          rw (waiting, heard_frame)
            (record {
              new = f ∷ [];
              heard = refl;
              raised = rw (waiting, heard_frame) (or_true s.raised);
              joined = tt;
            })
      | inr other ↦ elim (Bool-cases (says_closed topic f)) [
        | inl closed ↦
            rw (other, closed, heard_frame)
              (record {
                new = f ∷ [];
                heard = refl;
                raised = rw other (or_false s.raised);
                joined = refl;
              })
        | inr open_still ↦
            rw (other, open_still, heard_frame)
              (record {
                new = f ∷ [];
                heard = refl;
                raised = rw other (or_false s.raised);
                joined = tt;
              })
      ]
    ]

    take_read-Notes :
        (last_heard : ℕ) (s : Socket) (answer : Read)
        → let t : Socket = record {
          tick = suc s.tick;
          raised = s.raised;
          heard = hear answer s.heard;
          slept = s.slept;
        } in
          Notes topic s (take_read env topic last_heard answer t)
    unfolding take_read
    take_read-Notes last_heard s (text f) =
        resume-Notes topic s
          (heard_frame env topic f (record {
            tick = suc (suc s.tick);
            raised = s.raised;
            heard = s.heard ++ f ∷ [];
            slept = s.slept;
          }))
          _ (heard_frame-Notes s f (suc (suc s.tick))) λ _ t. quiet topic t t.tick (ok _) tt
    take_read-Notes last_heard s other_message = quiet topic s (suc (suc s.tick)) (ok _) tt
    take_read-Notes last_heard s read_timed_out = go (env.flushes (suc s.tick))
      where
        go :
            (result : Flushed)
            → let t : Socket = record s { tick = suc (suc s.tick) } in
              let m : Action ℕ =
                λ t. resume (flush_result env topic result t) (λ _. pure last_heard) in
              Notes topic s (m t)
        go flushed = unfold flush_result in quiet topic s (suc (suc s.tick)) (ok last_heard) tt
        go flush_timed_out =
            unfold flush_result in quiet topic s (suc (suc s.tick)) (ok last_heard) tt
        go flush_failed = unfold flush_result in quiet topic s (suc (suc s.tick)) (err _) refl
    take_read-Notes last_heard s read_failed = quiet topic s (suc s.tick) (err _) refl

    send_heartbeat-Notes :
        (now : ℕ) (l : Loop env topic) (s : Socket)
        → Notes topic s (send_heartbeat env topic now l s)
    unfolding send_heartbeat
    send_heartbeat-Notes now l s =
        if-Notes topic (leb l.next_heartbeat now) _ _ s (beat (env.sends s.tick))
          (quiet topic s s.tick (ok l) tt)
      where
        beat :
            (sent : Bool)
            → let m : Action (Loop env topic) =
                if sent
                then pure (record l { next_ref = l.next_ref + 1; next_heartbeat = now + heartbeat })
                else fail_joined socket_error in
              Notes topic s (m (record s { tick = suc s.tick }))
        beat true = quiet topic s (suc s.tick) (ok _) tt
        beat false = quiet topic s (suc s.tick) (err _) refl

    listen_each-Notes :
        (fuel : ℕ) (l : Loop env topic) (s : Socket)
        → Notes topic s (listen_each env topic fuel l s)
    unfolding listen_each
    listen_each-Notes zero l s = quiet topic s s.tick (err unfinished) tt
    listen_each-Notes (suc fuel) l s =
        let t : Socket = record s { tick = suc s.tick } in
        let u : Socket = record s { tick = suc (suc s.tick) } in
        let now = env.now (suc s.tick) in
        at_tick topic s (suc s.tick) _ (
          if-Notes topic (env.cancelled s.tick) _ _ t (quiet topic t t.tick (ok tt) tt) (
            at_tick topic t u.tick _ (
              if-Notes topic (ltb silence_limit (now - l.last_heard)) _ _ u
                (quiet topic u u.tick (err _) refl)
                (resume-Notes topic u (send_heartbeat env topic now l u) _
                  (send_heartbeat-Notes now l u)
                  λ beaten v.
                    resume-Notes topic v
                      (take_read env topic beaten.last_heard (env.reads v.tick)
                        (record v { tick = suc v.tick; heard = hear (env.reads v.tick) v.heard }))
                      _ (take_read-Notes beaten.last_heard v (env.reads v.tick))
                      λ heard_at w. listen_each-Notes fuel _ w))))

refused :
    (e : ListenError)
    → ◌≡◌ {A = Result (Unit {0}) Stop}
        (err (failed (record { message = join_refused; joined = false })))
        (err (failed e))
    → e.joined ≡ false
refused e h = cc

says :
    (e : ListenError) {r : Result (Unit {0}) Stop}
    → SaysJoined r
    → r ≡ err (failed e)
    → e.joined ≡ true
says e j h = subst SaysJoined h j

-- However the server, the network and the clock behave: from the reply to the join on, the flag that
-- makes the agent lease is up exactly if it was before, if the reply that accepts the join says that
-- jobs wait, or if one of the frames that are read says so on the installation's topic; so no notice
-- is lost and none is made up. A failure counts as one of a joined channel exactly if the reply
-- accepted the join.
pub after_join_lem :
    (env : Environment) (topic : Bytes) (fuel : ℕ) (reply : Frame) (s : Socket)
    → let p = after_join env topic fuel reply s in
      (new : List Frame) × (p.1.heard ≡ s.heard ++ new)
      × (p.1.raised
          ≡ (s.raised || (reply.accepted && reply.jobs_waiting) || any (says_waiting topic) new))
      × ((e : ListenError) → p.0 ≡ err (failed e) → e.joined ≡ reply.accepted)
unfolding after_join
after_join_lem env topic fuel reply s = go reply.accepted reply.jobs_waiting
  where
    started : Socket → Loop env topic
    started t = record {
      next_ref = 2;
      next_heartbeat = env.now t.tick + heartbeat;
      last_heard = env.now (suc t.tick);
    }

    go :
        (accepted waiting : Bool)
        → let listening : Action Unit =
            λ t. listen_each env topic fuel (started t) (record t { tick = suc (suc t.tick) }) in
          let noting : Action Unit = if waiting then raise_notice else pure tt in
          let m : Action Unit =
            if not accepted then fail join_refused else (λ t. resume (noting t) (λ _. listening)) in
          (new : List Frame) × ((m s).1.heard ≡ s.heard ++ new)
          × ((m s).1.raised ≡ (s.raised || (accepted && waiting) || any (says_waiting topic) new))
          × ((e : ListenError) → (m s).0 ≡ err (failed e) → e.joined ≡ accepted)
    go false waiting = (
      [],
      sym (append-nil s.heard),
      or_false s.raised ∙ or_false (s.raised || false),
      λ e h. refused e h,
    )
    go true true =
        let t : Socket = record s { raised = true } in
        let n =
          listen_each-Notes topic env fuel (started t) (record t { tick = suc (suc t.tick) }) in
        (
          n.new,
          n.heard,
          n.raised ∙ ap (λ b. b || any (says_waiting topic) n.new) (or_true s.raised),
          λ e h. says e n.joined h,
        )
    go true false =
        let n =
          listen_each-Notes topic env fuel (started s) (record s { tick = suc (suc s.tick) }) in
        (
          n.new,
          n.heard,
          n.raised ∙ ap (λ b. b || any (says_waiting topic) n.new) (or_false s.raised),
          λ e h. says e n.joined h,
        )
