-- ===== src/Broadcast.antt =====
-- What the service relies on in `tokio::sync::broadcast`. The crate is not part of the repository,
-- so a channel is a parameter: its operations, and its documented behaviour as laws. The receivers
-- are numbered in the order of `subscribe`. `recv` is one poll of the future.
pub mod InMemory
use that_limit.Prelude.{
  ℕ, suc, ◌<◌, ◌==◌, ◌≡◌, ◌≢◌, Option, none, some, List, [], ◌∷◌, ◌++◌, length, if◌then◌else◌,
}

pub record Broadcast (A : Type 0) : Type 1 where
  pub Channel : Type 0
  pub channel : ℕ → Channel
  pub subscribe : Channel → Channel
  pub send : Channel → A → Channel
  pub recv : Channel → ℕ → Option A × Channel
  pub capacity : Channel → ℕ
  pub receivers : Channel → ℕ
  -- the messages that a receiver has not taken yet
  pub waiting : Channel → ℕ → List A
  pub capacity-channel : (n : ℕ) → capacity (channel n) ≡ n
  pub capacity-subscribe : (c : Channel) → capacity (subscribe c) ≡ capacity c
  pub capacity-send : (c : Channel) (a : A) → capacity (send c a) ≡ capacity c
  pub capacity-recv : (c : Channel) (r : ℕ) → capacity (recv c r).1 ≡ capacity c
  pub receivers-channel : (n : ℕ) → receivers (channel n) ≡ 0
  pub receivers-subscribe : (c : Channel) → receivers (subscribe c) ≡ suc (receivers c)
  pub receivers-send : (c : Channel) (a : A) → receivers (send c a) ≡ receivers c
  pub receivers-recv : (c : Channel) (r : ℕ) → receivers (recv c r).1 ≡ receivers c
  -- a new receiver gets what is sent from now on
  pub waiting-subscribe :
      (c : Channel) (r : ℕ)
      → waiting (subscribe c) r ≡ (if r == receivers c then [] else waiting c r)
  -- every receiver that does not lag behind gets the message
  pub waiting-send :
      (c : Channel) (a : A) (r : ℕ)
      → r < receivers c
      → length (waiting c r) < capacity c
      → waiting (send c a) r ≡ waiting c r ++ (a ∷ [])
  pub recv-empty : (c : Channel) (r : ℕ) → waiting c r ≡ [] → recv c r ≡ (none, c)
  pub recv-cons :
      (c : Channel) (r : ℕ) (a : A) (rest : List A)
      → waiting c r ≡ a ∷ rest
      → ((recv c r).0 ≡ some a) × (waiting (recv c r).1 r ≡ rest)
  pub waiting-recv : (c : Channel) (r q : ℕ) → r ≢ q → waiting (recv c r).1 q ≡ waiting c q
