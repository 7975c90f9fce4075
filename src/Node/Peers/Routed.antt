-- ===== src/Node/Peers/Routed.antt =====
-- Which part of a node a connection can touch.
use edge_grid.Prelude.{◌≡◌, ◌⊎◌, refl, inl, inr, Text, Option, none, some}
use edge_grid.Prelude.Results.{Result, ok, err}
use edge_grid.Net.{Conn}
use edge_grid.Discovery.Hello.{
  Hello, HelloError, IntentType, intent_hello, intent_blob, intent_task, intent_result,
  intent_other, exchange_as_listener,
}
use edge_grid.Task.{Task}
use edge_grid.Task.Offer
use edge_grid.Node.Inbound.{WhoIs, BlobNode}
use edge_grid.Node.Tasks.{TaskNode}
use edge_grid.Node.Peers.{
  Codecs, World, Served, handle, handle_as, handle_peer, greeted, serve_blob, serve_task, from_task,
}

module _ (codecs : Codecs) (w : World) where
  -- The peer is known to Tailscale, and the greeting was for this intent.
  abbrev pub Greeted : Hello → Conn → IntentType → Type 0
  Greeted self c intent =
      (who : WhoIs) × (hello : Hello) × (w.who ≡ some who)
      × ((exchange_as_listener codecs.hello w.greeting_deadline self c).0 ≡ ok hello)
      × (hello.intent ≡ intent)

  -- Only the given intents change something.
  Touches : BlobNode → TaskNode → (IntentType → Type 0) → Served → Type 0
  Touches blob tasks P s =
      ((s.blob ≡ blob) ⊎ P intent_blob)
      × ((s.tasks ≡ tasks) ⊎ P intent_task)
      × ((s.task ≡ none) ⊎ P intent_task)
      × ((s.file ≡ none) ⊎ P intent_blob)

  from_task-blob :
      (blob : BlobNode) (r : Result Offer.Error Task × Conn × TaskNode)
      → ((from_task codecs w blob r).blob ≡ blob) × ((from_task codecs w blob r).file ≡ none)
  unfolding from_task
  from_task-blob blob (ok t, c, tasks) = (refl, refl)
  from_task-blob blob (err e, c, tasks) = (refl, refl)

  handle_peer-Touches :
      (intent : IntentType) (claimed : Text) (c : Conn) (blob : BlobNode) (tasks : TaskNode)
      (P : IntentType → Type 0)
      → P intent
      → Touches blob tasks P (handle_peer codecs w intent claimed c blob tasks)
  unfolding handle_peer serve_blob serve_task Touches
  handle_peer-Touches intent_blob claimed c blob tasks P h = (inr h, inl refl, inl refl, inr h)
  handle_peer-Touches intent_task claimed c blob tasks P h =
      let (same, none_left) = from_task-blob blob _ in (inl same, inr h, inr h, inl none_left)
  handle_peer-Touches intent_result claimed c blob tasks P h =
      (inl refl, inl refl, inl refl, inl refl)
  handle_peer-Touches intent_hello claimed c blob tasks P h =
      (inl refl, inl refl, inl refl, inl refl)
  handle_peer-Touches (intent_other s) claimed c blob tasks P h =
      (inl refl, inl refl, inl refl, inl refl)

  greeted-Touches :
      (q : Result HelloError Hello × Conn) (blob : BlobNode) (tasks : TaskNode)
      (P : IntentType → Type 0)
      → ((hello : Hello) → q.0 ≡ ok hello → P hello.intent)
      → Touches blob tasks P (greeted codecs w q blob tasks)
  unfolding greeted Touches
  greeted-Touches (err e, c) blob tasks P h = (inl refl, inl refl, inl refl, inl refl)
  greeted-Touches (ok hello, c) blob tasks P h =
      handle_peer-Touches hello.intent hello.node_id c blob tasks P (h hello refl)

  handle_as-Touches :
      (who : Option WhoIs) (self : Hello) (c : Conn) (blob : BlobNode) (tasks : TaskNode)
      → w.who ≡ who
      → Touches blob tasks (Greeted self c) (handle_as codecs w who self c blob tasks)
  unfolding handle_as Touches
  handle_as-Touches none self c blob tasks e = (inl refl, inl refl, inl refl, inl refl)
  handle_as-Touches (some who) self c blob tasks e =
      greeted-Touches (exchange_as_listener codecs.hello w.greeting_deadline self c) blob tasks
        (Greeted self c) (λ hello h. (who, hello, e, h, refl))

  -- A connection changes the inbox, the transfers and their history only if WhoIs names the peer, the
  -- greeting succeeds and its intent is a blob; it changes the task slot and the task table, or starts a
  -- run, only if the same holds with the intent of a task. A request for a result, a plain greeting
  -- and an unknown intent change nothing of the node.
  pub handle-Touches :
      (self : Hello) (c : Conn) (blob : BlobNode) (tasks : TaskNode)
      → let s = handle codecs w self c blob tasks in
        ((s.blob ≡ blob) ⊎ Greeted self c intent_blob)
        × ((s.tasks ≡ tasks) ⊎ Greeted self c intent_task)
        × ((s.task ≡ none) ⊎ Greeted self c intent_task)
        × ((s.file ≡ none) ⊎ Greeted self c intent_blob)
  unfolding handle Touches
  handle-Touches self c blob tasks = handle_as-Touches w.who self c blob tasks refl
