-- ===== src/Server/Recovery/LastSaved.antt =====
-- What `resume_agent` answers from the rows of saved events.
use mathlib.Core.Bool.{false≢true}
use skialith.Common.{
  ℕ, ◌^◌, ◌≤◌, ◌<◌, ◌≡◌, ◌≢◌, ◌↔◌, refl, sym, ap, ◌∙◌, subst, ◌⊎◌, inl, inr, String, true, false,
  none, some, List, [], ◌∷◌, ok, Among, ok-inj, some-inj, arith, eq_iff, Bool-cases,
}
use skialith.Common.Int.{ℤ, pos, eqb_ℤ, as_i32, as_i64, ◌≤ℤ◌}
use skialith.External.Json.{IsJson}
use skialith.Trace.{bind_row, as_db_str}
use skialith.Trace.Table.{TraceRow, TraceTable, has_step, same_step}
use skialith.Trace.Keyed.{IsKeyed, is_checkpoint}
use skialith.Resurrection.{AgentState}
use skialith.Resurrection.Newest.{Highest, NoCheckpoint}
use skialith.Resurrection.Resume.{Resumed, fresh, from_checkpoint, from_null}
use skialith.Resurrection.Resume
use skialith.Store.SaveEvent.{Services}
use skialith.Server.Recovery.Filed.{SavedEvent, HasRows, nth_row, nth_state}

module _ (v : Services) (isJson : IsJson v.json) (t : TraceTable v.json.Value) (keyed : IsKeyed t)
    (log : ℕ → SavedEvent v.json.Value) where
  open v use {json.{Value}}
  open t use {rows}

  -- What an agent resumes from where the messages `ns` are filed: its event with the highest number,
  -- under that number.
  pub data LastSaved (agent_id : String) (ns : List ℕ) : AgentState Value → Type 0 where
    none_saved :
        ((n : ℕ) → Among n ns → (log n).agent_id ≢ agent_id)
        → LastSaved agent_id ns (record {
          agent_id = agent_id;
          step_index = pos 0;
          state =
              v.json.object
                (("kind", v.json.string "NewAgent") ∷ ("step_index", v.json.number (pos 0)) ∷ []);
        })
    last_saved :
        (n : ℕ)
        → Among n ns
        → (log n).agent_id ≡ agent_id
        → ((m : ℕ) → Among m ns → (log m).agent_id ≡ agent_id → m ≤ n)
        → LastSaved agent_id ns (record {
          agent_id = agent_id;
          step_index = pos n;
          state = nth_state v isJson t keyed log n;
        })

  step_below : (n : ℕ) → n < 2 ^ 31 → as_i32 (as_i64 n) ≡ pos n
  unfolding as_i32 as_i64
  step_below n h = ground arith

  has_step-Among :
      (x : TraceRow Value) (table : List (TraceRow Value))
      → has_step x table ≡ true
      → (r : TraceRow Value) × Among r table × (same_step x r ≡ true)
  unfolding has_step
  has_step-Among x [] h = cc
  has_step-Among x (r ∷ table) h = elim (Bool-cases (same_step x r)) [
    | inl here ↦ (r, inl refl, here)
    | inr other ↦ let (y, mem, e) = has_step-Among x table (rw other at h) in (y, inr mem, e)
  ]

  NoCheckpoint-Among :
      (agent_id : String) (r : TraceRow Value) (table : List (TraceRow Value))
      → NoCheckpoint agent_id table
      → Among r table
      → is_checkpoint agent_id r ≡ false
  NoCheckpoint-Among agent_id r [] h mem = elim mem [ ]
  NoCheckpoint-Among agent_id r (x ∷ table) h (inl e) = ap (is_checkpoint agent_id) e ∙ h.0
  NoCheckpoint-Among agent_id r (x ∷ table) h (inr mem) =
      NoCheckpoint-Among agent_id r table h.1 mem

  Highest-Among :
      (agent_id : String) (top : ℤ) (r : TraceRow Value) (table : List (TraceRow Value))
      → Highest agent_id top table
      → Among r table
      → (is_checkpoint agent_id r ≡ false) ⊎ (r.step_index ≤ℤ top)
  Highest-Among agent_id top r [] h mem = elim mem [ ]
  Highest-Among agent_id top r (x ∷ table) h (inl e) =
      subst (λ y. (is_checkpoint agent_id y ≡ false) ⊎ (y.step_index ≤ℤ top)) (sym e) h.0
  Highest-Among agent_id top r (x ∷ table) h (inr mem) = Highest-Among agent_id top r table h.1 mem

  is_checkpoint-nth :
      (agent_id : String) (n : ℕ)
      → (is_checkpoint agent_id (nth_row v isJson t keyed log n) ≡ true)
        ↔ ((log n).agent_id ≡ agent_id)
  unfolding is_checkpoint bind_row as_db_str
  is_checkpoint-nth agent_id n = ground (arith, eq_iff (log n).agent_id agent_id)

  same_step-nth :
      (m k : ℕ)
      → m < 2 ^ 31
      → k < 2 ^ 31
      → same_step (nth_row v isJson t keyed log m) (nth_row v isJson t keyed log k) ≡ true
      → ((log k).agent_id ≡ (log m).agent_id) × (k ≡ m)
  unfolding same_step bind_row
  same_step-nth m k hm hk h =
      let steps : same_step (nth_row v isJson t keyed log m) (nth_row v isJson t keyed log k) ≡ true
          → eqb_ℤ (pos m) (pos k) ≡ true =
        λ e.
          subst (λ x. eqb_ℤ x (pos k) ≡ true) (step_below m hm)
            (subst (λ x. eqb_ℤ (as_i32 (as_i64 m)) x ≡ true) (step_below k hk) (ground arith)) in
      let e = steps h in (ground (arith, eq_iff (log m).agent_id (log k).agent_id), ground arith)

  -- The checkpoint that stands for a message.
  module _ (table : List (TraceRow Value)) (ns : List ℕ) (h : HasRows v isJson t keyed log table ns)
      (small : (n : ℕ) → Among n ns → n < 2 ^ 31) (agent_id : String) where
    checkpoint_for :
        (m : ℕ)
        → Among m ns
        → (log m).agent_id ≡ agent_id
        → (r : TraceRow Value) × Among r table
          × (is_checkpoint agent_id r ≡ true)
          × (pos m ≤ℤ r.step_index)
    unfolding same_step bind_row
    checkpoint_for m mem own =
        let (r, mem', same) = has_step-Among (nth_row v isJson t keyed log m) table (h.all m mem) in
        let (k, mem'', e) = h.only r mem' in
        let (agents, numbers) =
          same_step-nth m k (small m mem) (small k mem'')
            (subst (λ x. same_step (nth_row v isJson t keyed log m) x ≡ true) e same) in
        (
          r,
          mem',
          ap (is_checkpoint agent_id) e ∙ (is_checkpoint-nth agent_id k).1 (agents ∙ own),
          subst (λ x. pos m ≤ℤ x) (sym (ap (λ x. x.step_index) e ∙ step_below k (small k mem'')))
              (omega arith),
        )

    LastSaved-from_checkpoint :
        (r : TraceRow Value) (payload : Value)
        → Among r table
        → is_checkpoint agent_id r ≡ true
        → Highest agent_id r.step_index table
        → r.payload ≡ some payload
        → LastSaved agent_id ns
            (record { agent_id = agent_id; step_index = r.step_index; state = payload })
    unfolding bind_row
    LastSaved-from_checkpoint r payload mem own high given =
        let (n, mem', e) = h.only r mem in
        let step = ap (λ x. x.step_index) e ∙ step_below n (small n mem') in
        let stored : payload ≡ nth_state v isJson t keyed log n =
          some-inj (sym given ∙ ap (λ x. x.payload) e) in
        let own' = (is_checkpoint-nth agent_id n).0 (ap (is_checkpoint agent_id) (sym e) ∙ own) in
        let last : (m : ℕ) → Among m ns → (log m).agent_id ≡ agent_id → m ≤ n = λ m memm ownm.
          let (x, memx, ownx, above) = checkpoint_for m memm ownm in
          elim (Highest-Among agent_id r.step_index x table high memx) [
            | inl not_own ↦ absurd (false≢true (sym not_own ∙ ownx))
            | inr below ↦
                let below' : x.step_index ≤ℤ pos n = subst (λ y. x.step_index ≤ℤ y) step below in
                omega arith
          ] in
        subst (LastSaved agent_id ns)
          (sym (λ i. record { agent_id = agent_id; step_index = step i; state = stored i }))
          (last_saved n mem' own' last)

    has_payload : (r : TraceRow Value) → Among r table → r.payload ≢ none
    unfolding bind_row
    has_payload r mem given =
        let (n, _, e) = h.only r mem in let p = sym given ∙ ap (λ x. x.payload) e in cc

    pub LastSaved-Resumed :
        (db : t.Db) (res : _) (state : AgentState Value)
        → rows db ≡ table
        → Resumed v.json t keyed agent_id db res
        → res ≡ ok state
        → LastSaved agent_id ns state
    LastSaved-Resumed db _ state same (Resume.failed x) e = cc
    LastSaved-Resumed db _ state same (fresh no_row) e = subst (LastSaved agent_id ns) (ok-inj e) (
        none_saved (λ n mem own.
          let (x, memx, ownx, _) = checkpoint_for n mem own in
          false≢true (
            sym
              (NoCheckpoint-Among agent_id x table (subst (NoCheckpoint agent_id) same no_row) memx)
            ∙ ownx)))
    LastSaved-Resumed db _ state same (from_checkpoint r payload mem own high given) e =
        subst (LastSaved agent_id ns) (ok-inj e) (
          LastSaved-from_checkpoint r payload (subst (Among r) same mem) own
            (subst (Highest agent_id r.step_index) same high) given)
    LastSaved-Resumed db _ state same (from_null r mem own high given) e =
        absurd (has_payload r (subst (Among r) same mem) given)
