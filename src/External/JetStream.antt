-- ===== src/External/JetStream.antt =====
-- The JetStream context of `async_nats`, as its publishers use it. `publish` hands the message to
-- the client, and what it returns is awaited for the acknowledgement of the server.
use skialith.Common.{
  ◌≡◌, ◌⊎◌, ℕ, String, Bool, true, false, ◌&&◌, ◌||◌, str_eq, List, [], ◌∷◌, ◌++◌, Result, ok, err,
}

pub record Message : Type 0 where
  pub subject : String
  pub headers : List (String × String)
  pub payload : List ℕ

pub record JetStream : Type 1 where
  pub Js : Type 0
  pub AckFuture : Type 0
  pub PublishError : Type 0
  pub publish : Message → Js → Result PublishError AckFuture × Js
  pub await_ack : AckFuture → Js → Result PublishError (Unit {0}) × Js
  -- The messages of this process that the server has stored, the oldest first.
  pub stored : Js → List Message
  pub sent : AckFuture → Message

-- An acknowledged message is stored; one whose acknowledgement failed may be. The log takes a message at
-- the earliest after `publish`: `await_ack` is what happens to it then, also where nobody waits any more.
pub record Acknowledges (j : JetStream) : Type 0 where
  pub stored-publish : (m : Message) (js : j.Js) → j.stored (j.publish m js).1 ≡ j.stored js
  pub sent-publish :
      (m : Message) (js : j.Js) (f : j.AckFuture) → (j.publish m js).0 ≡ ok f → j.sent f ≡ m
  pub ack_ok :
      (f : j.AckFuture) (js : j.Js)
      → (j.await_ack f js).0 ≡ ok tt
      → j.stored (j.await_ack f js).1 ≡ j.stored js ++ j.sent f ∷ []
  pub ack_err :
      (f : j.AckFuture) (js : j.Js) (e : j.PublishError)
      → (j.await_ack f js).0 ≡ err e
      → (j.stored (j.await_ack f js).1 ≡ j.stored js)
        ⊎ (j.stored (j.await_ack f js).1 ≡ j.stored js ++ j.sent f ∷ [])

-- The documented matching of a filter with a subject, token by token: `*` stands for any one token,
-- and a last `>` for all that follow.
abbrev pub subject_matches : List String → List String → Bool
subject_matches [] [] = true
subject_matches [] (t ∷ ts) = false
subject_matches (f ∷ fs) [] = false
subject_matches (f ∷ fs) (t ∷ ts) =
    str_eq f ">" || ((str_eq f "*" || str_eq f t) && subject_matches fs ts)
