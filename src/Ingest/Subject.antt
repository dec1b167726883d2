-- ===== src/Ingest/Subject.antt =====
-- Which agent a message belongs to.
use skialith.Common.{
  ◌≡◌, refl, sym, ap, ◌∙◌, ◌↔◌, String, Bool, false, not, Bool-cases, inl, inr, List, [], ◌∷◌,
  get_elem?, unwrap_or,
}
use skialith.Common.Text.{
  ◌<>◌, has_dot, split_dot, split_dot-first, split_dot_of_no_dot, split_dot_of_dot,
}
use skialith.External.JetStream.{subject_matches}
use skialith.Manager.{checkpoint_subject}
use skialith.Ingest.{agent_of, filter_subject}

agent_of-published :
    (agent_id : String)
    → agent_of ("agent.trace." <> agent_id) ≡ unwrap_or (get_elem? (split_dot agent_id) 0) ""
unfolding agent_of
agent_of-published agent_id = refl

agent_of_first :
    (s p : String) (ps : List String) → split_dot s ≡ p ∷ ps → agent_of ("agent.trace." <> s) ≡ p
agent_of_first s p ps e = agent_of-published s ∙ ap (λ l. unwrap_or (get_elem? l 0) "") e

-- The ingester files a published event under the agent that published it exactly when the agent's
-- identifier holds no dot.
pub agent_of_iff :
    (agent_id : String)
    → (agent_of ("agent.trace." <> agent_id) ≡ agent_id) ↔ (has_dot agent_id ≡ false)
agent_of_iff agent_id =
    let (p, ps, e, free) = split_dot-first agent_id in
    (
      (λ same. ap has_dot (sym same ∙ agent_of_first agent_id p ps e) ∙ free),
      (λ plain. agent_of_first agent_id agent_id [] (split_dot_of_no_dot agent_id plain)),
    )

selected : (agent_id : String) → Bool
selected agent_id =
    subject_matches (split_dot filter_subject) (split_dot ("agent.trace." <> agent_id))

selected_lem : (agent_id : String) → selected agent_id ≡ not (has_dot agent_id)
unfolding selected split_dot
selected_lem agent_id = elim (Bool-cases (has_dot agent_id)) [
  | inr plain ↦ rw (plain, split_dot_of_no_dot agent_id plain) refl
  | inl dot ↦ let (p, q, ps, e) = split_dot_of_dot agent_id dot in rw (dot, e) refl
]

-- Of the subjects that the program publishes to, the ingester's filter selects the trace subjects of
-- agents without a dot in their identifiers, and no checkpoint.
pub filter_selects :
    (agent_id : String)
    → (subject_matches (split_dot filter_subject) (split_dot ("agent.trace." <> agent_id))
        ≡ not (has_dot agent_id))
      × (subject_matches (split_dot filter_subject) (split_dot (checkpoint_subject agent_id))
          ≡ false)
unfolding selected split_dot
filter_selects agent_id = (selected_lem agent_id, refl)
