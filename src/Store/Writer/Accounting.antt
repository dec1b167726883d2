-- ===== src/Store/Writer/Accounting.antt =====
-- Ledgers for the runs of the writer.
use mathlib.Core.List.{append_assoc, map-append}
use skialith.Common.{
  ◌≡◌, refl, sym, ap, ◌∙◌, inl, inr, List, [], ◌∷◌, ◌++◌, Bool-cases, length, leb, ℕ,
}
use skialith.Store.Config.{SkialithConfig}
use skialith.Store.Events.{PendingEvent}
use skialith.Store.Backend.{Backend, IsReliable, WriterOf}
use skialith.Store.Flush.{rows_of}
use skialith.Store.Retry.{flush_batch_with_retry}
use skialith.Store.Retry.Outcome.{Outcome, dead}
use skialith.Store.Retry.Loop.{flush_batch_with_retry_lem}
use skialith.Store.Writer.{
  Signal, received, closed, ticked, push, flush_if_full, flush_unless_empty, on_event, select_loop,
  events_of,
}
use skialith.Store.Writer.Ledger.{
  Fate, Entry, all_events, written_events, dead_batches, AllStored, Accounts, fate_of, entry_of,
  Accounts-flush, Accounts-refl, Accounts-push, History, nothing, receives, flushes, in_turn,
}

all_events-append : (es fs : List Entry) → all_events (es ++ fs) ≡ all_events es ++ all_events fs
all_events-append [] fs = refl
all_events-append (e ∷ es) fs = simp (all_events-append es fs, append_assoc)

written_events-append :
    (es fs : List Entry) → written_events (es ++ fs) ≡ written_events es ++ written_events fs
written_events-append [] fs = refl
written_events-append (e ∷ es) fs = simp (written_events-append es fs, append_assoc)

dead_batches-append :
    (es fs : List Entry) → dead_batches (es ++ fs) ≡ dead_batches es ++ dead_batches fs
dead_batches-append [] fs = refl
dead_batches-append (e ∷ es) fs = simp (dead_batches-append es fs, append_assoc)

AllStored-append : (es fs : List Entry) → AllStored es → AllStored fs → AllStored (es ++ fs)
AllStored-append [] fs h k = k
AllStored-append (e ∷ es) fs h k = (h.0, AllStored-append es fs h.1 k)

module _ (b : Backend) where
  open b use {database.{rows}}

  Accounts-trans :
      {evs evs' : List PendingEvent} {es fs : List Entry} {w v u : WriterOf b}
      → Accounts b evs es w v
      → Accounts b evs' fs v u
      → Accounts b (evs ++ evs') (es ++ fs) w u
  Accounts-trans {evs} {evs'} {es} {fs} {w} {v} {u} a c = record {
    conserved =
        ap (λ l. l ++ u.batch) (all_events-append es fs)
        ∙ append_assoc (all_events es) (all_events fs) u.batch
        ∙ ap (λ l. all_events es ++ l) c.conserved
        ∙ sym (append_assoc (all_events es) v.batch evs')
        ∙ ap (λ l. l ++ evs') a.conserved
        ∙ append_assoc w.batch evs evs';
    table =
        c.table
        ∙ ap (λ l. l ++ rows_of b (written_events fs)) a.table
        ∙ append_assoc (rows w.db) (rows_of b (written_events es)) (rows_of b (written_events fs))
        ∙ ap (λ l. rows w.db ++ l)
            (sym (
              ap (rows_of b) (written_events-append es fs)
              ∙ map-append _ (written_events es) (written_events fs)));
    dead_letters =
        c.dead_letters
        ∙ ap (λ l. l ++ dead_batches fs) a.dead_letters
        ∙ append_assoc (dead b w.dead_letter_tx) (dead_batches es) (dead_batches fs)
        ∙ ap (λ l. dead b w.dead_letter_tx ++ l) (sym (dead_batches-append es fs));
    stored = AllStored-append es fs a.stored c.stored;
  }

pub snoc_cons {ℓ} :
    {A : Type ℓ} (xs : List A) (x : A) → (y : A) × (ys : List A) × (xs ++ x ∷ [] ≡ y ∷ ys)
snoc_cons [] x = (x, [], refl)
snoc_cons (y ∷ xs) x = (y, xs ++ x ∷ [], refl)

abbrev pub AllFates : (Fate → Type 0) → List Entry → Type 0
AllFates P [] = Unit {0}
AllFates P (e ∷ es) = P e.fate × AllFates P es

AllFates-append :
    (P : Fate → Type 0) (es fs : List Entry) → AllFates P es → AllFates P fs → AllFates P (es ++ fs)
AllFates-append P [] fs h k = k
AllFates-append P (e ∷ es) fs h k = (h.0, AllFates-append P es fs h.1 k)

-- What is known of the dead-letter channel, `Q`, and what follows for the fates of the batches, `P`.
module _ (b : Backend) (reliable : IsReliable b) (P : Fate → Type 0) (Q : WriterOf b → Type 0)
    (keeps : (w v : WriterOf b) (o : Outcome b w v) → Q w → P (fate_of b o) × Q v)
    (pushes : (ev : PendingEvent) (w : WriterOf b) → Q w → Q (push b ev w)) where
  unfoldable pub Settles : List PendingEvent → WriterOf b → WriterOf b → Type 0
  Settles evs w v =
      (es : List Entry) × Accounts b evs es w v × History b evs es w v × AllFates P es × Q v

  Settles-refl : (w : WriterOf b) → Q w → Settles [] w w
  unfolding Settles
  Settles-refl w q = ([], Accounts-refl b w, nothing w, tt, q)

  Settles-push : (ev : PendingEvent) (w : WriterOf b) → Q w → Settles (ev ∷ []) w (push b ev w)
  unfolding Settles
  Settles-push ev w q = ([], Accounts-push b ev w, receives ev w, tt, pushes ev w q)

  Settles-trans :
      (evs evs' : List PendingEvent) (w v u : WriterOf b)
      → Settles evs w v
      → (Q v → Settles evs' v u)
      → Settles (evs ++ evs') w u
  unfolding Settles
  Settles-trans evs evs' w v u (es, a, x, p, q) rest =
      let (fs, c, y, p', q') = rest q in
      (
        es ++ fs,
        Accounts-trans b a c,
        in_turn evs evs' es fs w v u x y,
        AllFates-append P es fs p p',
        q',
      )

  Settles-flush :
      (w : WriterOf b) (ev : PendingEvent) (evs : List PendingEvent)
      → w.batch ≡ ev ∷ evs
      → Q w
      → Settles [] w (flush_batch_with_retry b w)
  unfolding Settles
  Settles-flush w ev evs full q =
      let (cleared, o) = flush_batch_with_retry_lem b reliable w ev evs full in
      let (p, q') = keeps w (flush_batch_with_retry b w) o q in
      (
        entry_of b o ∷ [],
        Accounts-flush b w (flush_batch_with_retry b w) o cleared,
        flushes ev evs w (flush_batch_with_retry b w) full cleared o,
        (p, tt),
        q',
      )

  pub Settles-flush_unless_empty :
      (l : List PendingEvent) (w : WriterOf b)
      → w.batch ≡ l
      → Q w
      → Settles [] w (flush_unless_empty b l w)
  unfolding flush_unless_empty
  Settles-flush_unless_empty [] w e q = Settles-refl w q
  Settles-flush_unless_empty (ev ∷ evs) w e q = Settles-flush w ev evs e q

  Settles-flush_if_full :
      (n : ℕ) (w : WriterOf b) (ev : PendingEvent) (evs : List PendingEvent)
      → w.batch ≡ ev ∷ evs
      → Q w
      → Settles [] w (flush_if_full b n w)
  unfolding flush_if_full
  Settles-flush_if_full n w ev evs e q = elim (Bool-cases (leb n (length w.batch))) [
    | inl full ↦ rw full (Settles-flush w ev evs e q)
    | inr room ↦ rw room (Settles-refl w q)
  ]

  Settles-on_event :
      (cfg : SkialithConfig) (ev : PendingEvent) (w : WriterOf b)
      → Q w
      → Settles (ev ∷ []) w (on_event b cfg ev w)
  unfolding on_event
  Settles-on_event cfg ev w q =
      let (first, more, e) = snoc_cons w.batch ev in
      Settles-trans (ev ∷ []) [] w (push b ev w) _ (Settles-push ev w q)
        (Settles-flush_if_full cfg.max_batch_size (push b ev w) first more e)

  pub Settles-run :
      (cfg : SkialithConfig) (signals : List Signal) (w : WriterOf b)
      → Q w
      → Settles (events_of signals) w (select_loop b cfg signals w)
  unfolding select_loop events_of
  Settles-run cfg [] w q = Settles-refl w q
  Settles-run cfg (received ev ∷ signals) w q =
      Settles-trans (ev ∷ []) (events_of signals) w (on_event b cfg ev w) _
        (Settles-on_event cfg ev w q) (Settles-run cfg signals (on_event b cfg ev w))
  Settles-run cfg (closed ∷ signals) w q = Settles-flush_unless_empty w.batch w refl q
  Settles-run cfg (ticked ∷ signals) w q =
      Settles-trans [] (events_of signals) w (flush_unless_empty b w.batch w) _
        (Settles-flush_unless_empty w.batch w refl q)
        (Settles-run cfg signals (flush_unless_empty b w.batch w))
