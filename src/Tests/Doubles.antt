-- ===== src/Tests/Doubles.antt =====
-- In-memory instances of a channel, of `serde_json` and of JetStream, with the laws that the theorems ask for.
use skialith.Common.{
  ℕ, zero, suc, ◌≡◌, refl, inl, inr, String, true, Option, none, some, List, [], ◌∷◌, ◌++◌, ok,
  str_eq, if◌then◌else◌, Option-cases,
}
use skialith.Common.Int.{ℤ, pos, negsuc}
use skialith.External.Json.{Json, IsJson, field}
use skialith.External.JetStream.{Message, JetStream, Acknowledges}
use skialith.Store.Events.{PendingEvent}
use skialith.Store.Mpsc.{Mpsc, Delivers}
use skialith.Store.SaveEvent.{Services}

abbrev pub unbounded : (A : Type 0) → Mpsc A
unbounded A = record { Chan = List A; send = λ a c. (true, c ++ a ∷ []); accepted = λ c. c }

pub unbounded-Delivers : (A : Type 0) → Delivers (unbounded A)
unbounded-Delivers A = record { send_ok = λ a c h. refl; send_closed = λ a c h. cc }

mutual
  pub data Value : Type 0 where
    text : String → Value
    integer : ℤ → Value
    members : Members → Value

  pub data Members : Type 0 where
    no_more : Members
    member : String → Value → Members → Members

abbrev members_of : List (String × Value) → Members
members_of [] = no_more
members_of ((k, v) ∷ fs) = member k v (members_of fs)

abbrev or_else : Option Value → Option Value → Option Value
or_else (some v) o = some v
or_else none o = o

abbrev look_up : String → Members → Option Value
look_up k no_more = none
look_up k (member j v fs) = or_else (look_up k fs) (if str_eq j k then some v else none)

abbrev get_member : Value → String → Option Value
get_member (members fs) k = look_up k fs
get_member _ k = none

abbrev as_integer : Value → Option ℤ
as_integer (integer x) = some x
as_integer _ = none

abbrev as_text : Value → Option String
as_text (text s) = some s
as_text _ = none

abbrev saved_event : Value
saved_event = members (
    member "agent_id" (text "a")
      (member "event_id" (text "1") (member "payload" (text "p") no_more)))

abbrev a_trace : Value
a_trace = members (
    member "step_index" (integer (negsuc 4))
      (member "event_type" (text "tool_call") (member "note" (text "n") no_more)))

-- Enough for the tests: a byte stands for a number, 0 for one event, two for one trace, and no byte for
-- no value.
abbrev first_byte : List ℕ → Option Value
first_byte [] = none
first_byte (zero ∷ []) = some saved_event
first_byte (zero ∷ n ∷ ns) = some a_trace
first_byte (suc n ∷ ns) = some (integer (pos (suc n)))

abbrev print : Value → List ℕ
print (integer (pos n)) = n ∷ []
print (members (member k v fs)) = if str_eq k "step_index" then 0 ∷ 0 ∷ [] else 0 ∷ []
print _ = 0 ∷ []

abbrev pub json : Json
json = record {
  Value = Value;
  Error = Unit {0};
  object = λ fs. members (members_of fs);
  string = text;
  number = integer;
  get = get_member;
  as_i64 = as_integer;
  as_str = as_text;
  to_vec = print;
  from_slice = first_byte;
}

look_up-members_of :
    (fs : List (String × Value)) (k : String) → look_up k (members_of fs) ≡ field k fs
look_up-members_of [] k = refl
look_up-members_of ((j, v) ∷ fs) k = elim (Option-cases (field k fs)) [
  | inl e ↦ rw (look_up-members_of fs k, e) refl
  | inr (w, e) ↦ rw (look_up-members_of fs k, e) refl
]

pub json-IsJson : IsJson json
json-IsJson = record {
  get-object = look_up-members_of;
  as_i64-number = λ x h. refl;
  as_str-string = λ s. refl;
}

abbrev pub jet_stream : JetStream
jet_stream = record {
  Js = List Message;
  AckFuture = Message;
  PublishError = Unit {0};
  publish = λ m js. (ok m, js);
  await_ack = λ m js. (ok tt, js ++ m ∷ []);
  stored = λ js. js;
  sent = λ m. m;
}

pub jet_stream-Acknowledges : Acknowledges jet_stream
jet_stream-Acknowledges = record {
  stored-publish = λ m js. refl;
  sent-publish = λ m js f h. cc;
  ack_ok = λ f js h. refl;
  ack_err = λ f js e h. cc;
}

abbrev pub services : Services
services = record {
  json = json;
  jet_stream = jet_stream;
  queue = unbounded PendingEvent;
  Connect = Unit {0};
  NatsPublish = Unit {0};
  CreateStream = Unit {0};
  Sqlx = Unit {0};
}
