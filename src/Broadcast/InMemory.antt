-- ===== src/Broadcast/InMemory.antt =====
-- A channel that has the laws of `Broadcast`: they can be met, and the tests run on it. It keeps a
-- queue for each receiver, and none of its receivers lags behind.
use that_limit.Prelude.{
  ℕ, suc, ◌==◌, ◌≡◌, ◌≢◌, refl, Option, none, some, List, [], ◌∷◌, ◌++◌, if◌then◌else◌, arith,
}
use that_limit.Prelude.Family.{update}
use that_limit.Broadcast.{Broadcast}

pub record Queues (A : Type 0) : Type 0 where
  pub capacity : ℕ
  pub receivers : ℕ
  pub waiting : ℕ → List A

module _ {A : Type 0} where
  abbrev pub subscribe : Queues A → Queues A
  subscribe c = record c {
    receivers = suc c.receivers;
    waiting = λ r. if r == c.receivers then [] else c.waiting r;
  }

  abbrev pub send : Queues A → A → Queues A
  send c a = record c { waiting = λ r. c.waiting r ++ (a ∷ []) }

  abbrev pub take_first : Queues A → ℕ → List A → Option A × Queues A
  take_first c r [] = (none, c)
  take_first c r (a ∷ rest) = (some a, record c { waiting = update c.waiting r rest })

  abbrev pub recv : Queues A → ℕ → Option A × Queues A
  recv c r = take_first c r (c.waiting r)

  pub recv-empty : (c : Queues A) (r : ℕ) → c.waiting r ≡ [] → recv c r ≡ (none, c)
  recv-empty c r h = rw h refl

  pub recv-cons :
      (c : Queues A) (r : ℕ) (a : A) (rest : List A)
      → c.waiting r ≡ a ∷ rest
      → ((recv c r).0 ≡ some a) × ((recv c r).1.waiting r ≡ rest)
  recv-cons c r a rest h = ground (arith, h)

  pub waiting-recv : (c : Queues A) (r q : ℕ) → r ≢ q → (recv c r).1.waiting q ≡ c.waiting q
  waiting-recv c r q h = ground arith

  pub capacity-recv : (c : Queues A) (r : ℕ) → (recv c r).1.capacity ≡ c.capacity
  capacity-recv c r = ground arith

  pub receivers-recv : (c : Queues A) (r : ℕ) → (recv c r).1.receivers ≡ c.receivers
  receivers-recv c r = ground arith

abbrev pub in_memory : {A : Type 0} → Broadcast A
in_memory {A} = record {
  Channel = Queues A;
  channel = λ n. record { capacity = n; receivers = 0; waiting = λ r. [] };
  subscribe = subscribe;
  send = send;
  recv = recv;
  capacity = λ c. c.capacity;
  receivers = λ c. c.receivers;
  waiting = λ c. c.waiting;
  capacity-channel = λ n. refl;
  capacity-subscribe = λ c. refl;
  capacity-send = λ c a. refl;
  capacity-recv = capacity-recv;
  receivers-channel = λ n. refl;
  receivers-subscribe = λ c. refl;
  receivers-send = λ c a. refl;
  receivers-recv = receivers-recv;
  waiting-subscribe = λ c r. refl;
  waiting-send = λ c a r lt room. refl;
  recv-empty = recv-empty;
  recv-cons = recv-cons;
  waiting-recv = waiting-recv;
}
