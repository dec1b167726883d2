-- ===== src/Store/Mpsc.antt =====
-- A `tokio::sync::mpsc` channel as its senders see it: a parameter. `send` waits for room, and fails
-- only when the receiver is gone.
use skialith.Common.{◌≡◌, List, [], ◌∷◌, ◌++◌, Bool, true, false}

pub record Mpsc (A : Type 0) : Type 1 where
  pub Chan : Type 0
  -- Whether the value was accepted, and the channel after it.
  pub send : A → Chan → Bool × Chan
  -- Everything the channel has accepted, the oldest first.
  pub accepted : Chan → List A

pub record Delivers {A : Type 0} (m : Mpsc A) : Type 0 where
  pub send_ok :
      (a : A) (c : m.Chan)
      → (m.send a c).0 ≡ true
      → m.accepted (m.send a c).1 ≡ m.accepted c ++ a ∷ []
  pub send_closed :
      (a : A) (c : m.Chan) → (m.send a c).0 ≡ false → m.accepted (m.send a c).1 ≡ m.accepted c
