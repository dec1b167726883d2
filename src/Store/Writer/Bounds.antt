-- ===== src/Store/Writer/Bounds.antt =====
-- The size of the batch.
use skialith.Common.{
  ℕ, ◌<◌, max, ◌≡◌, refl, ap, inl, inr, List, [], ◌∷◌, arith, leb, length, Bool-cases,
}
use skialith.Store.Config.{SkialithConfig}
use skialith.Store.Events.{PendingEvent}
use skialith.Store.Backend.{Backend, IsReliable, WriterOf}
use skialith.Store.Retry.{flush_batch_with_retry}
use skialith.Store.Retry.Loop.{flush_batch_with_retry_lem}
use skialith.Store.Writer.Accounting.{snoc_cons}
use skialith.Store.Writer.{
  Signal, received, closed, ticked, push, flush_if_full, flush_unless_empty, on_event, select_loop,
}

module _ (b : Backend) (reliable : IsReliable b) where
  abbrev pub IsSmall : ℕ → WriterOf b → Type 0
  IsSmall n w = length w.batch < max 1 n

  IsSmall-flush :
      (n : ℕ) (w : WriterOf b) (ev : PendingEvent) (evs : List PendingEvent)
      → w.batch ≡ ev ∷ evs
      → IsSmall n (flush_batch_with_retry b w)
  IsSmall-flush n w ev evs e =
      omega (arith, ap length (flush_batch_with_retry_lem b reliable w ev evs e).0)

  IsSmall-flush_unless_empty :
      (n : ℕ) (l : List PendingEvent) (w : WriterOf b)
      → w.batch ≡ l
      → IsSmall n w
      → IsSmall n (flush_unless_empty b l w)
  unfolding flush_unless_empty
  IsSmall-flush_unless_empty n [] w e h = h
  IsSmall-flush_unless_empty n (ev ∷ evs) w e h = IsSmall-flush n w ev evs e

  IsSmall-flush_if_full :
      (n : ℕ) (w : WriterOf b) (ev : PendingEvent) (evs : List PendingEvent)
      → w.batch ≡ ev ∷ evs
      → IsSmall n (flush_if_full b n w)
  unfolding flush_if_full
  IsSmall-flush_if_full n w ev evs e = elim (Bool-cases (leb n (length w.batch))) [
    | inl full ↦ rw full (IsSmall-flush n w ev evs e)
    | inr room ↦ rw room (ground arith)
  ]

  IsSmall-on_event :
      (cfg : SkialithConfig) (ev : PendingEvent) (w : WriterOf b)
      → IsSmall cfg.max_batch_size (on_event b cfg ev w)
  unfolding on_event
  IsSmall-on_event cfg ev w =
      let (first, more, e) = snoc_cons w.batch ev in
      IsSmall-flush_if_full cfg.max_batch_size (push b ev w) first more e

  -- A writer that starts with fewer events than a full batch (or with none, where the
  -- configured size is 0) holds fewer after every turn of its loop, whatever fails.
  pub run-IsSmall :
      (cfg : SkialithConfig) (signals : List Signal) (w : WriterOf b)
      → IsSmall cfg.max_batch_size w
      → IsSmall cfg.max_batch_size (select_loop b cfg signals w)
  unfolding select_loop
  run-IsSmall cfg [] w h = h
  run-IsSmall cfg (received ev ∷ signals) w h =
      run-IsSmall cfg signals (on_event b cfg ev w) (IsSmall-on_event cfg ev w)
  run-IsSmall cfg (closed ∷ signals) w h =
      IsSmall-flush_unless_empty cfg.max_batch_size w.batch w refl h
  run-IsSmall cfg (ticked ∷ signals) w h =
      run-IsSmall cfg signals (flush_unless_empty b w.batch w)
        (IsSmall-flush_unless_empty cfg.max_batch_size w.batch w refl h)
