-- ===== src/Server/Concurrent/EnqueuedOnce.antt =====
-- The order in which the events of overlapping requests come to stand in the queue.
use mathlib.Core.List.{append_assoc, append-nil}
use skialith.Common.{
  ℕ, ◌≡◌, refl, sym, ap, ◌∙◌, inl, inr, List, [], ◌∷◌, ◌++◌, Among, Among-append, Among-last,
  Among-snoc, Distinct, Distinct-snoc, update, update-each, ap-update,
}
use skialith.Trace.Table.{TraceTable}
use skialith.Store.Events.{PendingEvent}
use skialith.Store.Mpsc.{Delivers}
use skialith.Store.SaveEvent.{Services}
use skialith.Server.Requests.{Request, App}
use skialith.Server.Concurrent.{Task, request_of, System, Step, run, Reach, start, next}
use skialith.Server.Concurrent.Kept.{request_of-Move}
use skialith.Server.Concurrent.Enqueued.{
  event_of, events_of, events_of-snoc, PastQueue, Accepted, kept, enqueued, Queued-Move,
}

module _ (v : Services) (t : TraceTable v.json.Value) (Nats : Type 0) where
  open v use {json.{Value}, queue.{accepted}}

  module _ (requests : ℕ → Request Value) (before : List PendingEvent) where
    -- What was there before, and one event for each task of `order`.
    record Inv (order : List ℕ) (s : System v t Nats) : Type 0 where
      queue : accepted s.app.store.enqueue_tx ≡ before ++ events_of v t Nats requests order
      once : Distinct order
      past : (i : ℕ) → Among i order → PastQueue v t Nats (s.task i)
      listed : (i : ℕ) → Accepted v t Nats (s.task i) → Among i order
      own : (i : ℕ) → request_of v t Nats (s.task i) ≡ requests i

    Inv-kept :
        (order : List ℕ) (s : System v t Nats) (i : ℕ) (app : App v t Nats) (p : Task v t Nats)
        → accepted app.store.enqueue_tx ≡ accepted s.app.store.enqueue_tx
        → (PastQueue v t Nats (s.task i) → PastQueue v t Nats p)
        → (Accepted v t Nats p → Accepted v t Nats (s.task i))
        → ((j : ℕ) → request_of v t Nats (update s.task i p j) ≡ requests j)
        → Inv order s
        → Inv order (record { app = app; task = update s.task i p })
    Inv-kept order s i app p same past accepted' own inv = record {
      queue = same ∙ inv.queue;
      once = inv.once;
      past =
          update-each (λ j q. Among j order → PastQueue v t Nats q) s.task i p
            (λ mem. past (inv.past i mem)) (λ j other. inv.past j);
      listed =
          update-each (λ j q. Accepted v t Nats q → Among j order) s.task i p
            (λ h. inv.listed i (accepted' h)) (λ j other. inv.listed j);
      own = own;
    }

    Inv-enqueued :
        (order : List ℕ) (s : System v t Nats) (i : ℕ) (app : App v t Nats) (p : Task v t Nats)
        → accepted app.store.enqueue_tx
          ≡ accepted s.app.store.enqueue_tx ++ event_of v t Nats (requests i)
        → ¬ PastQueue v t Nats (s.task i)
        → PastQueue v t Nats p
        → ((j : ℕ) → request_of v t Nats (update s.task i p j) ≡ requests j)
        → Inv order s
        → Inv (order ++ i ∷ []) (record { app = app; task = update s.task i p })
    Inv-enqueued order s i app p more not_yet now own inv = record {
      queue =
          more
          ∙ ap (λ l. l ++ event_of v t Nats (requests i)) inv.queue
          ∙ append_assoc before (events_of v t Nats requests order) (event_of v t Nats (requests i))
          ∙ ap (λ l. before ++ l) (sym (events_of-snoc v t Nats requests order i));
      once = Distinct-snoc order i inv.once (λ mem. not_yet (inv.past i mem));
      past =
          update-each (λ j q. Among j (order ++ i ∷ []) → PastQueue v t Nats q) s.task i p
            (λ mem. now)
            (λ j other mem. elim (Among-snoc j order i mem) [
              | inl old ↦ inv.past j old
              | inr e ↦ absurd (other (sym e))
            ]);
      listed =
          update-each (λ j q. Accepted v t Nats q → Among j (order ++ i ∷ [])) s.task i p
            (λ h. Among-last i order) (λ j other h. Among-append j order (i ∷ []) (inv.listed j h));
      own = own;
    }

    Step-Inv :
        {limit : ℕ} (delivers : Delivers v.queue) (order : List ℕ) {s s' : System v t Nats}
        → Step v t Nats limit s s'
        → Inv order s
        → (order' : List ℕ) × Inv order' s'
    Step-Inv delivers order {s} (run i {app} {p} mv) inv =
        let same = request_of-Move v t Nats mv in
        let own = λ (j : ℕ). ap-update (request_of v t Nats) s.task i p same j ∙ inv.own j in
        elim (Queued-Move v t Nats delivers mv) [
          | kept q past accepted' ↦ (order, Inv-kept order s i app p q past accepted' own inv)
          | enqueued q not_yet now ↦ (
            order ++ i ∷ [],
            Inv-enqueued order s i app p
                (q
                  ∙ ap (λ x. accepted s.app.store.enqueue_tx ++ event_of v t Nats x)
                      (same ∙ inv.own i))
                not_yet now own inv,
          )
        ]

    Reach-Inv :
        {limit : ℕ} (delivers : Delivers v.queue) {app : App v t Nats} {s : System v t Nats}
        → accepted app.store.enqueue_tx ≡ before
        → Reach v t Nats limit requests app s
        → (order : List ℕ) × Inv order s
    Reach-Inv delivers e start = (
      [],
      record {
        queue = e ∙ sym (append-nil before);
        once = tt;
        past = λ i mem. elim mem [ ];
        listed = λ i h. elim h [ ];
        own = λ i. refl;
      },
    )
    Reach-Inv delivers e (next r st) =
        let (order, inv) = Reach-Inv delivers e r in Step-Inv delivers order st inv

  -- However the requests overlap, fail or are dropped, the queue is as if the events had been put
  -- there one at a time: it is what it was before and then one event for each of a list of requests,
  -- none of them listed twice, and every request of an event that is answered with 204 is
  -- listed. So no request is enqueued twice, and none that is answered so is left out.
  pub Reach-enqueued_once :
      (delivers : Delivers v.queue) {limit : ℕ} {requests : ℕ → Request Value} {app : App v t Nats}
      {s : System v t Nats}
      → Reach v t Nats limit requests app s
      → (order : List ℕ) × (accepted s.app.store.enqueue_tx
          ≡ accepted app.store.enqueue_tx ++ events_of v t Nats requests order)
        × Distinct order
        × ((i : ℕ) → Accepted v t Nats (s.task i) → Among i order)
  Reach-enqueued_once delivers {requests} {app} r =
      let (order, inv) = Reach-Inv requests (accepted app.store.enqueue_tx) delivers refl r in
      (order, inv.queue, inv.once, inv.listed)
