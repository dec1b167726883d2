-- ===== src/Store/Writer/Ledger.antt =====
-- A ledger of the batches that a writer has flushed: which events went where.
use mathlib.Core.List.{append-nil}
use skialith.Common.{◌≡◌, refl, sym, ap, ◌∙◌, inl, inr, Bool, true, false, List, [], ◌∷◌, ◌++◌}
use skialith.Store.Events.{PendingEvent}
use skialith.Store.Backend.{Backend, WriterOf}
use skialith.Store.Flush.{rows_of}
use skialith.Store.Retry.Outcome.{Outcome, stored, dead_lettered, lost, WrittenAtMostOnce, dead}
use skialith.Store.Writer.{push}

pub data Fate : Type 0 where
  to_table to_dead_letters to_nowhere : Fate

-- A flushed batch. `written` says whether its rows are in the table: a batch can be there although
-- the answer to its commit was lost, and it went on to the dead letters.
pub record Entry : Type 0 where
  pub events : List PendingEvent
  pub fate : Fate
  pub written : Bool

abbrev pub all_events : List Entry → List PendingEvent
all_events [] = []
all_events (e ∷ es) = e.events ++ all_events es

abbrev pub written_of : Entry → List PendingEvent
written_of e = elim e.written [ true ↦ e.events | false ↦ [] ]

abbrev pub written_events : List Entry → List PendingEvent
written_events [] = []
written_events (e ∷ es) = written_of e ++ written_events es

abbrev pub dead_of : Entry → List (List PendingEvent)
dead_of e = elim e.fate [ to_dead_letters ↦ e.events ∷ [] | _ ↦ [] ]

abbrev pub dead_batches : List Entry → List (List PendingEvent)
dead_batches [] = []
dead_batches (e ∷ es) = dead_of e ++ dead_batches es

-- An event that counts as stored is in the table.
abbrev pub StoredIsWritten : Entry → Type 0
StoredIsWritten e = elim e.fate [ to_table ↦ e.written ≡ true | _ ↦ Unit {0} ]

abbrev pub AllStored : List Entry → Type 0
AllStored [] = Unit {0}
AllStored (e ∷ es) = StoredIsWritten e × AllStored es

module _ (b : Backend) where
  open b use {database.{rows}}

  -- The ledger of a run from `w` to `v`, in which `evs` were received.
  pub record Accounts (evs : List PendingEvent) (es : List Entry) (w v : WriterOf b) : Type 0 where
    -- No event is dropped, made up or moved: the flushed batches, and then the batch at hand, are
    -- what was at hand, and then what was received.
    pub conserved : all_events es ++ v.batch ≡ w.batch ++ evs
    pub table : rows v.db ≡ rows w.db ++ rows_of b (written_events es)
    pub dead_letters : dead b v.dead_letter_tx ≡ dead b w.dead_letter_tx ++ dead_batches es
    pub stored : AllStored es

  abbrev pub fate_of : {w v : WriterOf b} → Outcome b w v → Fate
  fate_of (stored _ _ _) = to_table
  fate_of (dead_lettered _ _ _ _) = to_dead_letters
  fate_of (lost _ _ _ _) = to_nowhere

  abbrev was_written : (w v : WriterOf b) → WrittenAtMostOnce b w v → Bool
  was_written w v (inl _) = false
  was_written w v (inr _) = true

  abbrev in_table : {w v : WriterOf b} → Outcome b w v → Bool
  in_table (stored _ _ _) = true
  in_table {w} {v} (dead_lettered _ _ written _) = was_written w v written
  in_table {w} {v} (lost _ _ written _) = was_written w v written

  abbrev pub entry_of : {w v : WriterOf b} → Outcome b w v → Entry
  entry_of {w} o = record { events = w.batch; fate = fate_of o; written = in_table o }

  table_of :
      (w v : WriterOf b) (h : WrittenAtMostOnce b w v) (f : Fate)
      → rows v.db
        ≡ rows w.db
          ++ rows_of b (
              written_events
                (record { events = w.batch; fate = f; written = was_written w v h } ∷ []))
  table_of w v (inl same) f = same ∙ sym (append-nil (rows w.db))
  table_of w v (inr (took, _)) f =
      took ∙ ap (λ l. rows w.db ++ rows_of b l) (sym (append-nil w.batch))

  pub Accounts-flush :
      (w v : WriterOf b) (o : Outcome b w v) → v.batch ≡ [] → Accounts [] (entry_of o ∷ []) w v
  Accounts-flush w v (stored wrote _ channel) empty = record {
    conserved = ap (λ l. (w.batch ++ []) ++ l) empty ∙ append-nil (w.batch ++ []);
    table = wrote ∙ ap (λ l. rows w.db ++ rows_of b l) (sym (append-nil w.batch));
    dead_letters = ap (dead b) channel ∙ sym (append-nil (dead b w.dead_letter_tx));
    stored = (refl, tt);
  }
  Accounts-flush w v (dead_lettered _ taken written _) empty = record {
    conserved = ap (λ l. (w.batch ++ []) ++ l) empty ∙ append-nil (w.batch ++ []);
    table = table_of w v written to_dead_letters;
    dead_letters = taken;
    stored = (tt, tt);
  }
  Accounts-flush w v (lost _ same written _) empty = record {
    conserved = ap (λ l. (w.batch ++ []) ++ l) empty ∙ append-nil (w.batch ++ []);
    table = table_of w v written to_nowhere;
    dead_letters = same ∙ sym (append-nil (dead b w.dead_letter_tx));
    stored = (tt, tt);
  }

  pub Accounts-refl : (w : WriterOf b) → Accounts [] [] w w
  Accounts-refl w = record {
    conserved = sym (append-nil w.batch);
    table = sym (append-nil (rows w.db));
    dead_letters = sym (append-nil (dead b w.dead_letter_tx));
    stored = tt;
  }

  pub Accounts-push : (ev : PendingEvent) (w : WriterOf b) → Accounts (ev ∷ []) [] w (push b ev w)
  Accounts-push ev w = record {
    conserved = refl;
    table = sym (append-nil (rows w.db));
    dead_letters = sym (append-nil (dead b w.dead_letter_tx));
    stored = tt;
  }

  -- A run from `w` to `v` that receives `evs` and flushes `es`: each entry stands for a flush of the
  -- batch at hand, with the outcome that the flush had.
  pub data History : List PendingEvent → List Entry → WriterOf b → WriterOf b → Type 0 where
    nothing : (w : WriterOf b) → History [] [] w w
    receives : (ev : PendingEvent) (w : WriterOf b) → History (ev ∷ []) [] w (push b ev w)
    flushes :
        (ev : PendingEvent) (evs : List PendingEvent) (w v : WriterOf b)
        → w.batch ≡ ev ∷ evs
        → v.batch ≡ []
        → (o : Outcome b w v) → History [] (entry_of o ∷ []) w v
    in_turn :
        (evs evs' : List PendingEvent) (es fs : List Entry) (w v u : WriterOf b)
        → History evs es w v
        → History evs' fs v u
        → History (evs ++ evs') (es ++ fs) w u
