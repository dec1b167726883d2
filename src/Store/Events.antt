-- ===== src/Store/Events.antt =====
-- `PendingEvent`, and the row of table `agent_events` that the INSERT of `flush_batch` makes of it.
use skialith.Common.{
  ℕ, ◌≡◌, String, Bool, true, false, not, ◌&&◌, ◌||◌, List, [], ◌∷◌, ◌++◌, arith, str_eq, eq_iff,
}

pub record PendingEvent : Type 0 where
  pub agent_id : String
  pub event_id : String
  pub payload_json : List ℕ

-- The columns that the program writes.
pub record EventRow : Type 0 where
  pub agent_id : String
  pub event_id : String
  pub payload_json : String

-- UNIQUE KEY uq_agent_event (agent_id, event_id)
unfoldable pub same_key : EventRow → EventRow → Bool
same_key a b = str_eq a.agent_id b.agent_id && str_eq a.event_id b.event_id

unfoldable pub has_key : EventRow → List EventRow → Bool
has_key r [] = false
has_key r (x ∷ xs) = same_key r x || has_key r xs

unfoldable pub unique_keys : List EventRow → Bool
unfolding has_key
unique_keys [] = true
unique_keys (x ∷ xs) = not (has_key x xs) && unique_keys xs

same_key_refl : (r : EventRow) → same_key r r ≡ true
unfolding same_key
same_key_refl r = ground (arith, eq_iff r.agent_id r.agent_id, eq_iff r.event_id r.event_id)

has_key_middle : (r : EventRow) (xs ys : List EventRow) → has_key r (xs ++ r ∷ ys) ≡ true
unfolding has_key
has_key_middle r [] ys = ground (arith, same_key_refl r)
has_key_middle r (x ∷ xs) ys = ground (arith, has_key_middle r xs ys)

-- Rows that are there already cannot be inserted again.
pub unique_keys_twice :
    (rows : List EventRow) (x : EventRow) (xs : List EventRow)
    → unique_keys ((rows ++ x ∷ xs) ++ x ∷ xs) ≡ false
unfolding unique_keys
unique_keys_twice [] x xs = ground (arith, has_key_middle x xs xs)
unique_keys_twice (r ∷ rows) x xs = ground (arith, unique_keys_twice rows x xs)
