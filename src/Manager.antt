-- ===== src/Manager.antt =====
-- src/agent_manager.rs: checkpoints, published to the write-ahead log.
use skialith.Common.{String, List, [], ◌∷◌, Result, Exec, map_err, ◌>>=◌}
use skialith.Common.Text.{◌<>◌}
use skialith.External.Json.{Json}
use skialith.External.JetStream.{JetStream}

pub data AgentManagerError (Serde Publish Nats : Type 0) : Type 0 where
  serialize : Serde → AgentManagerError Serde Publish Nats
  publish : Publish → AgentManagerError Serde Publish Nats
  ack : Nats → AgentManagerError Serde Publish Nats

abbrev pub checkpoint_subject : String → String
checkpoint_subject agent_id = "agent.checkpoint." <> agent_id

-- `HeaderMap` after the three `append`s.
abbrev pub checkpoint_headers : String → List (String × String)
checkpoint_headers agent_id =
    ("X-Priority", "high") ∷ ("X-WAL-Phase", "checkpoint") ∷ ("X-Agent-Id", agent_id) ∷ []

module _ (j : Json) (s : JetStream) (Nats : Type 0) where
  abbrev pub ManagerError : Type 0
  ManagerError = AgentManagerError j.Error s.PublishError Nats

  abbrev on_js : {A : Type 0} → (s.Js → Result s.PublishError A × s.Js) → Exec s.Js ManagerError A
  on_js f js = (map_err publish (f js).0, (f js).1)

  abbrev serialize_state : Result j.Error j.Value → Exec s.Js ManagerError j.Value
  serialize_state r js = (map_err serialize r, js)

  -- The state comes as its serialisation. Both awaits answer with the publish error of the context.
  unfoldable pub checkpoint_state :
      String → Result j.Error j.Value → Exec s.Js ManagerError (Unit {0})
  checkpoint_state agent_id serialized = do
    state ← serialize_state serialized
    ack_fut ← on_js (
        s.publish (record {
          subject = checkpoint_subject agent_id;
          headers = checkpoint_headers agent_id;
          payload = j.to_vec state;
        }))
    on_js (s.await_ack ack_fut)
