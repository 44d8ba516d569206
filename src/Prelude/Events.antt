-- ===== src/Prelude/Events.antt =====
-- What every service keeps: instants, and the events that it commits with its changes.
use Prim.Native.Nat.{ℕ}
use Prim.Native.String.{String}
use mathlib.Core.List.{List}

-- An instant, in nanoseconds.
abbrev pub Time : Type 0
Time = ℕ

-- The envelope is a sequence of bytes.
pub record OutboxEvent : Type 0 where
  pub id : String
  pub topic : String
  pub key : String
  pub envelope : List ℕ
  pub occurred_at : Time
