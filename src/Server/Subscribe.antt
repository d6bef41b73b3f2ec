-- ===== src/Server/Subscribe.antt =====
-- `FileSystem::subscribe` of Basic_Operation/server_code/subscriber_handler.hpp, cut where other
-- threads can run: its start, one round of its loop with the end that may follow, and its monitor.

-- What a round did: nothing yet, wrote a notification, or ended the subscription (`false`: its
-- cleanup waits for ever).

use distributed_filesystem.Base.{
  Bool, List, [], false, get_elem?, if◌then◌else◌, length, modify, none, some, suc, true, zero, ℕ,
  ◌++◌, ◌∷◌,
}
use distributed_filesystem.Dict.{put}
use distributed_filesystem.Server.Callbacks.{cleanup_client}
use distributed_filesystem.Server.Queue.{Popped, cancel, closed, item, new_queue, pop, waits}
use distributed_filesystem.Server.State.{Server}
use distributed_filesystem.Text.{Text}
use distributed_filesystem.Wire.{Notification}

pub data Round (D : Type 0) : Type 0 where
  sleeps : Round D
  wrote : Notification → Server D → Round D
  ended : Bool → Server D → Round D

module _ {D : Type 0} where
  -- A fresh queue, open for business, becomes the client's; its address is returned.
  unfoldable pub subscribe_start : Server D → Text → ℕ × Server D
  unfolding new_queue put
  subscribe_start s client_id =
      let address = length s.queues in
      (
        address,
        record s {
          queues = s.queues ++ record new_queue { shutdown = false } ∷ [];
          subscribers = put client_id address s.subscribers;
        },
      )

  abbrev pub end_subscription : Bool × Server D → Round D
  end_subscription (done, s) = ended done s

  unfoldable pub subscribe_popped : Server D → Text → ℕ → Bool → Popped → Round D
  unfolding cleanup_client
  subscribe_popped s client_id address accepted waits = sleeps
  subscribe_popped s client_id address accepted closed =
      end_subscription (cleanup_client s client_id)
  subscribe_popped s client_id address accepted (item n q) =
      let s' = record s { queues = modify (λ _. q) address s.queues } in
      if accepted then wrote n s' else end_subscription (cleanup_client s' client_id)

  -- `while (queue->pop(note)) { if (!writer->Write(note)) break; } cleanup_client(client_id);`
  unfoldable pub subscribe_round : Server D → Text → ℕ → Bool → Round D
  unfolding subscribe_popped pop
  subscribe_round s client_id address accepted = elim (get_elem? s.queues address) [
    | none ↦ sleeps
    | some q ↦ subscribe_popped s client_id address accepted (pop q)
  ]

  -- The monitor thread, once it sees that the context is cancelled.
  unfoldable pub monitor_cancel : Server D → ℕ → Server D
  unfolding cancel
  monitor_cancel s address = record s { queues = modify cancel address s.queues }

  abbrev pub record_note :
      Notification → List Notification × Bool × Server D → List Notification × Bool × Server D
  record_note n (notes, done, s) = (n ∷ notes, done, s)

  -- The rounds of the loop while no other thread runs and every write is accepted: what is written,
  -- whether the subscription has ended, and the state. A round that sleeps is the last; so is the
  -- end of the fuel.
  unfoldable pub subscribe_rounds : ℕ → Server D → Text → ℕ → List Notification × Bool × Server D
  unfolding subscribe_round
  subscribe_rounds zero s client_id address = ([], false, s)
  subscribe_rounds (suc fuel) s client_id address =
      elim (subscribe_round s client_id address true) [
        | sleeps ↦ ([], false, s)
        | ended done t ↦ ([], true, t)
        | wrote n t ↦ record_note n (subscribe_rounds fuel t client_id address)
      ]
