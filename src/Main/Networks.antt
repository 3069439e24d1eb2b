-- ===== src/Main/Networks.antt =====
-- Rounds of main in which every call succeeds and few networks are around.
use network_analyser_using_r.Base.{
  ℕ, ◌≡◌, subst, arith, true, false, Bytes, List, [], ◌∷◌, some, All,
}
use network_analyser_using_r.Outcome.{ok}
use network_analyser_using_r.CString.{until_nul}
use network_analyser_using_r.State.{Platform, IsPlatform}
use network_analyser_using_r.Command.Laws.{is_exit, is_capture}
use network_analyser_using_r.Main.{Connection, System, Trace, waiting, answer, start_server, main}
use network_analyser_using_r.Main.Laws.{IsReceived}
use network_analyser_using_r.Main.Start.{is_started-start_server}
use network_analyser_using_r.Main.Course.{
  Shown, goes, packets_of, accepts, commanded, course, ListsPackets, IsModest,
}
use network_analyser_using_r.Main.Follows.{Follows, FollowsRound, FollowsMain, main-FollowsMain}

module _ (p : Platform) (fuel : ℕ) (documented : IsPlatform p) where
  -- A round in which every call of the system succeeds and the client sends `capture`.
  pub record IsCaptureRound (c : Connection) : Type 0 where
    pub bytes : Bytes
    pub received : IsReceived c bytes
    pub no_exit : is_exit (until_nul bytes) ≡ false
    pub capture : is_capture (until_nul bytes) ≡ true
    pub sent : c.written ≡ true
    pub ready : accepts c ≡ true
    pub modest : IsModest p fuel documented c

  course-IsCaptureRound :
      (c : Connection) (shown : Shown)
      → IsCaptureRound c
      → course c shown ≡ goes (some (packets_of c))
  unfolding course commanded
  course-IsCaptureRound c shown r = ground arith

  -- One answer for each round, and the server waits for the next.
  abbrev pub Answered : List Connection → Trace → Type 0
  Answered [] waiting = Unit
  Answered (c ∷ cs) (answer text rest) =
      ListsPackets p fuel documented (packets_of c) text × Answered cs rest
  Answered _ _ = ⊥

  Follows-Answered :
      (cs : List Connection) (shown : Shown) (t : Trace)
      → All IsCaptureRound cs
      → Follows p fuel documented cs shown t
      → Answered cs t
  Follows-Answered [] shown t r e = rw e tt
  Follows-Answered (c ∷ cs) shown t r f =
      let (text, rest, e, shows, next) =
        subst (λ k. FollowsRound p fuel documented (Follows p fuel documented cs) k t)
          (course-IsCaptureRound c shown r.0) f in
      rw e (shows, Follows-Answered cs (some (packets_of c)) rest r.1 next)

  IsModest-rounds :
      (cs : List Connection) → All IsCaptureRound cs → All (IsModest p fuel documented) cs
  IsModest-rounds [] r = tt
  IsModest-rounds (c ∷ cs) r = (r.0.modest, IsModest-rounds cs r.1)

-- The server answers each capture round.
main-Answered :
    (p : Platform) (fuel : ℕ) (sys : System) (name port : Bytes) (cs : List Connection)
    (documented : IsPlatform p)
    → start_server sys port ≡ ok tt
    → All (IsCaptureRound p fuel documented) cs
    → Answered p fuel documented cs (main p fuel sys (name ∷ port ∷ []) cs)
main-Answered p fuel sys name port cs documented started r =
    Follows-Answered p fuel documented cs _ _ r (
      subst (λ b. FollowsMain p fuel documented b cs (main p fuel sys (name ∷ port ∷ []) cs))
        (is_started-start_server sys name port started)
        (main-FollowsMain p fuel sys (name ∷ port ∷ []) cs documented
          (IsModest-rounds p fuel documented cs r)))
