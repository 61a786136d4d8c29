-- ===== src/Server/Channel.antt =====
-- The channel between the two tasks of a server, with the messages in it.
use that_limit.Prelude.{length, ◌<◌, ◌≡◌, ap, ◌∙◌, some, List, [], ◌∷◌, ◌++◌, arith}
use that_limit.Broadcast.{Broadcast}
use that_limit.Server.{Command}

module _ (b : Broadcast Command) where
  -- Two receivers, with these messages, in a channel for ten.
  pub record Holds (c : b.Channel) (first second : List Command) : Type 0 where
    pub room : b.capacity c ≡ 10
    pub receivers : b.receivers c ≡ 2
    pub first_waits : b.waiting c 0 ≡ first
    pub second_waits : b.waiting c 1 ≡ second

  -- The first receiver only.
  pub record HoldsOne (c : b.Channel) : Type 0 where
    pub room : b.capacity c ≡ 10
    pub receivers : b.receivers c ≡ 1
    pub first_waits : b.waiting c 0 ≡ []

  pub subscribe-Holds : (c : b.Channel) → HoldsOne c → Holds (b.subscribe c) [] []
  subscribe-Holds c v = record {
    room = ground (arith, b.capacity-subscribe c, v.room);
    receivers = ground (arith, b.receivers-subscribe c, v.receivers);
    first_waits = ground (arith, b.waiting-subscribe c 0, v.receivers, v.first_waits);
    second_waits = ground (arith, b.waiting-subscribe c 1, v.receivers);
  }

  pub send-Holds :
      (c : b.Channel) (a : Command) (q q' : List Command)
      → Holds c q q'
      → length q < 10
      → length q' < 10
      → Holds (b.send c a) (q ++ (a ∷ [])) (q' ++ (a ∷ []))
  send-Holds c a q q' v few few' = record {
    room = b.capacity-send c a ∙ v.room;
    receivers = b.receivers-send c a ∙ v.receivers;
    first_waits =
        b.waiting-send c a 0 (rw v.receivers (omega arith)) (rw (v.room, v.first_waits) few)
        ∙ ap (λ x. x ++ (a ∷ [])) v.first_waits;
    second_waits =
        b.waiting-send c a 1 (rw v.receivers (omega arith)) (rw (v.room, v.second_waits) few')
        ∙ ap (λ x. x ++ (a ∷ [])) v.second_waits;
  }

  pub recv-Holds_first :
      (c : b.Channel) (a : Command) (q q' : List Command)
      → Holds c (a ∷ q) q'
      → ((b.recv c 0).0 ≡ some a) × Holds (b.recv c 0).1 q q'
  recv-Holds_first c a q q' v =
      let (took, rest) = b.recv-cons c 0 a q v.first_waits in
      (
        took,
        record {
          room = b.capacity-recv c 0 ∙ v.room;
          receivers = b.receivers-recv c 0 ∙ v.receivers;
          first_waits = rest;
          second_waits = b.waiting-recv c 0 1 (omega arith) ∙ v.second_waits;
        },
      )

  pub recv-Holds_second :
      (c : b.Channel) (a : Command) (q q' : List Command)
      → Holds c q (a ∷ q')
      → ((b.recv c 1).0 ≡ some a) × Holds (b.recv c 1).1 q q'
  recv-Holds_second c a q q' v =
      let (took, rest) = b.recv-cons c 1 a q' v.second_waits in
      (
        took,
        record {
          room = b.capacity-recv c 1 ∙ v.room;
          receivers = b.receivers-recv c 1 ∙ v.receivers;
          first_waits = b.waiting-recv c 1 0 (omega arith) ∙ v.first_waits;
          second_waits = rest;
        },
      )
