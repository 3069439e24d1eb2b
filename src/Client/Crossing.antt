-- ===== src/Client/Crossing.antt =====
-- Two tasks that use the fields of RpiServiceImpl at the same time, both connected before either takes
-- its output stream.
use network_analyser_using_r.Base.{
  ℕ, ◌≡◌, refl, ap, ◌∙◌, sym, Bytes, List, [], ◌∷◌, ◌++◌, Option, none, some, subst, length,
}
use network_analyser_using_r.Client.Service.{client_capture_command}
use network_analyser_using_r.Client.Sockets.{
  Channel, new_channel, SocketState, TaskPlace, connecting, taking_out, writing, taking_input,
  reading, failed, read, write, receive, step, serve_next,
}
use network_analyser_using_r.Client.Deadlock.{get_elem?-middle, write-middle}
use mathlib.Core.List.{append_assoc}
use mathlib.Core.Option.{some-injective}

module _ (channels : List Channel) where
  abbrev pub opened : List Channel
  opened = channels ++ (new_channel ∷ [])

  -- What a task has left in the fields; it has not ended.
  abbrev pub Stands : TaskPlace → SocketState → Type 0
  Stands connecting w = ⊥
  Stands taking_out w = Unit
  Stands writing w = w.out ≡ some (length opened)
  Stands taking_input w = Unit
  Stands reading w = w.input ≡ some (length opened)
  Stands failed w = ⊥
  Stands (read text) w = ⊥

  -- The fields lead to the second connection, the first has no command, and none is answered.
  pub record IsCrossed (a b : TaskPlace) (w : SocketState) : Type 0 where
    pub socket : w.socket ≡ some (length opened)
    pub answered : w.answered ≡ length channels
    pub last : Channel
    pub holds : w.channels ≡ opened ++ (last ∷ [])
    pub unanswered : last.replied ≡ none
    pub one : Stands a w
    pub other : Stands b w

  pub swapped : {a b : TaskPlace} {w : SocketState} → IsCrossed a b w → IsCrossed b a w
  swapped c = record {
    socket = c.socket;
    answered = c.answered;
    last = c.last;
    holds = c.holds;
    unanswered = c.unanswered;
    one = c.other;
    other = c.one;
  }

  pub serve_next-none :
      (answer : ℕ → Bytes → Bytes) (a b : TaskPlace) (w : SocketState)
      → IsCrossed a b w
      → serve_next answer w ≡ none
  unfolding serve_next
  serve_next-none answer a b w c =
      rw
        (
          c.answered,
          c.holds,
          append_assoc channels (new_channel ∷ []) (c.last ∷ []),
          get_elem?-middle channels new_channel (c.last ∷ []),
        )
        refl

  pub reading_none :
      (b : TaskPlace) (w : SocketState) → IsCrossed reading b w → step reading w ≡ none
  unfolding step
  reading_none b w c = rw (c.one, c.holds, get_elem?-middle opened c.last [], c.unanswered) refl

  -- Another task takes its output stream, or its input stream.
  out-Stands :
      (b : TaskPlace) (w : SocketState)
      → w.socket ≡ some (length opened)
      → Stands b w
      → Stands b (record w { out = w.socket })
  out-Stands connecting w e h = h
  out-Stands taking_out w e h = h
  out-Stands writing w e h = e
  out-Stands taking_input w e h = h
  out-Stands reading w e h = h
  out-Stands failed w e h = h
  out-Stands (read text) w e h = h

  input-Stands :
      (b : TaskPlace) (w : SocketState)
      → w.socket ≡ some (length opened)
      → Stands b w
      → Stands b (record w { input = w.socket })
  input-Stands connecting w e h = h
  input-Stands taking_out w e h = h
  input-Stands writing w e h = h
  input-Stands taking_input w e h = h
  input-Stands reading w e h = e
  input-Stands failed w e h = h
  input-Stands (read text) w e h = h

  channels-Stands :
      (b : TaskPlace) (w : SocketState) (chs : List Channel)
      → Stands b w
      → Stands b (record w { channels = chs })
  channels-Stands connecting w chs h = h
  channels-Stands taking_out w chs h = h
  channels-Stands writing w chs h = h
  channels-Stands taking_input w chs h = h
  channels-Stands reading w chs h = h
  channels-Stands failed w chs h = h
  channels-Stands (read text) w chs h = h

  abbrev sends : Channel → Channel
  sends ch = record ch { sent = ch.sent ++ client_capture_command }

  pub written :
      (b : TaskPlace) (w : SocketState)
      → (c : IsCrossed writing b w)
      → step writing w ≡ some (taking_input, record w { channels = opened ++ (sends c.last ∷ []) })
  unfolding step
  written b w c =
      ap (λ o. some (write o client_capture_command w)) c.one
      ∙ ap some (write-middle opened c.last client_capture_command w c.holds)

  -- The result of a step.
  stepped :
      (b a a' : TaskPlace) (w w' : SocketState)
      → IsCrossed a b w
      → ◌≡◌ {A = Option (TaskPlace × SocketState)} (some (a, w)) (some (a', w'))
      → IsCrossed a' b w'
  stepped b a a' w w' c e =
      subst (λ (x : TaskPlace × SocketState). IsCrossed x.0 b x.1) (some-injective _ _ e) c

  -- Each step of a task goes on from such a state to one.
  pub step-IsCrossed :
      (a b a' : TaskPlace) (w w' : SocketState)
      → IsCrossed a b w
      → step a w ≡ some (a', w')
      → IsCrossed a' b w'
  unfolding step
  step-IsCrossed connecting b a' w w' c h = absurd c.one
  step-IsCrossed taking_out b a' w w' c h =
      stepped b writing a' (record w { out = w.socket }) w'
        (record {
          socket = c.socket;
          answered = c.answered;
          last = c.last;
          holds = c.holds;
          unanswered = c.unanswered;
          one = c.socket;
          other = out-Stands b w c.socket c.other;
        })
        h
  step-IsCrossed writing b a' w w' c h =
      let chs = opened ++ (sends c.last ∷ []) in
      stepped b taking_input a' (record w { channels = chs }) w'
        (record {
          socket = c.socket;
          answered = c.answered;
          last = sends c.last;
          holds = refl;
          unanswered = c.unanswered;
          one = tt;
          other = channels-Stands b w chs c.other;
        })
        (sym (written b w c) ∙ h)
  step-IsCrossed taking_input b a' w w' c h =
      stepped b reading a' (record w { input = w.socket }) w'
        (record {
          socket = c.socket;
          answered = c.answered;
          last = c.last;
          holds = c.holds;
          unanswered = c.unanswered;
          one = c.socket;
          other = input-Stands b w c.socket c.other;
        })
        h
  step-IsCrossed reading b a' w w' c h = stuck (reading_none b w c) h
    where
      stuck : receive w.input w ≡ none → receive w.input w ≡ some (a', w') → IsCrossed a' b w'
      stuck e f = cc
  step-IsCrossed failed b a' w w' c h = absurd c.one
  step-IsCrossed (read text) b a' w w' c h = absurd c.one
