-- ===== src/Notices/Notes.antt =====
-- What a step of the connection of agent/src/notices.rs leaves behind, and how steps follow each other.
use mathlib.Core.List.{append-nil, append_assoc}
use renga.Prelude.{
  ℕ, ◌≡◌, sym, ap, ◌∙◌, Bool, true, false, ◌||◌, List, [], ◌++◌, any, any-append, or_assoc,
  or_false, if◌then◌else◌, Result, ok, err, resume,
}
use renga.Bytes.{Bytes}
use renga.Notices.{Frame, Stop, failed, unfinished, Socket, Action, says_waiting}

-- A failure after the channel was joined says so.
abbrev pub SaysJoined : {A : Type 0} → Result A Stop → Type 0
SaysJoined (err (failed e)) = e.joined ≡ true
SaysJoined _ = Unit

module _ (topic : Bytes) where
  -- The frames that were read since, and whether the flag was raised by one of them.
  pub record Notes {A : Type 0} (s : Socket) (p : Result A Stop × Socket) : Type 0 where
    pub new : List Frame
    pub heard : p.1.heard ≡ s.heard ++ new
    pub raised : p.1.raised ≡ (s.raised || any (says_waiting topic) new)
    pub joined : SaysJoined p.0

  pub quiet :
      {A : Type 0} (s : Socket) (tick : ℕ) (r : Result A Stop)
      → SaysJoined r
      → Notes s (r, record s { tick = tick })
  quiet s tick r j = record {
    new = [];
    heard = sym (append-nil s.heard);
    raised = or_false s.raised;
    joined = j;
  }

  pub at_tick :
      {A : Type 0} (s : Socket) (tick : ℕ) (p : Result A Stop × Socket)
      → Notes (record s { tick = tick }) p
      → Notes s p
  at_tick s tick p n = record { new = n.new; heard = n.heard; raised = n.raised; joined = n.joined }

  pub resume-Notes :
      {A B : Type 0} (s : Socket) (p : Result A Stop × Socket) (f : A → Action B)
      → Notes s p
      → ((a : A) (t : Socket) → Notes t (f a t))
      → Notes s (resume p f)
  resume-Notes {A = A} {B = B} s (err e, t) f n k = record {
    new = n.new;
    heard = n.heard;
    raised = n.raised;
    joined = go e n.joined;
  }
    where
      go : (e : Stop) → SaysJoined {A = A} (err e) → SaysJoined {A = B} (err e)
      go (failed e) j = j
      go unfinished j = tt
  resume-Notes s (ok a, t) f n k =
      let m = k a t in
      record {
        new = n.new ++ m.new;
        heard = m.heard ∙ ap (λ fs. fs ++ m.new) n.heard ∙ append_assoc s.heard n.new m.new;
        raised =
            m.raised
            ∙ ap (λ b. b || any (says_waiting topic) m.new) n.raised
            ∙ or_assoc s.raised (any (says_waiting topic) n.new) (any (says_waiting topic) m.new)
            ∙ ap (λ b. s.raised || b) (sym (any-append (says_waiting topic) n.new m.new));
        joined = m.joined;
      }

  pub if-Notes :
      {A : Type 0} (b : Bool) (m n : Action A) (s : Socket)
      → Notes s (m s)
      → Notes s (n s)
      → Notes s ((if b then m else n) s)
  if-Notes true m n s h k = h
  if-Notes false m n s h k = k
