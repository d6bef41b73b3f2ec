-- ===== src/Server/Subscription.antt =====
-- The loop of `subscribe` (Basic_Operation/server_code/subscriber_handler.hpp) writes what was
-- pushed, in the order of the pushes, also after its queue was cancelled.

use distributed_filesystem.Base.{
  Bool, List, [], ap, arith, false, get_elem?, get_elem?-modify_self, if◌then◌else◌, length, modify,
  modify-modify, modify_same, some, suc, true, zero, ℕ, ◌<◌, ◌∙◌, ◌∷◌, ◌≡◌,
}
use distributed_filesystem.Server.Callbacks.{cleanup_client}
use distributed_filesystem.Server.Queue.{NotificationQueue, pop}
use distributed_filesystem.Server.State.{Server}
use distributed_filesystem.Server.Subscribe.{
  record_note, subscribe_popped, subscribe_round, subscribe_rounds,
}
use distributed_filesystem.Text.{Text}
use distributed_filesystem.Wire.{Notification}

module _ {D : Type 0} (c : Text) (address : ℕ) where
  -- The server with the queue at the address emptied.
  abbrev pub emptied : Server D → Bool → Server D
  emptied s shutdown = record s {
    queues = modify (λ _. record { queue = []; shutdown = shutdown }) address s.queues;
  }

  abbrev pub finished : Server D → Bool → Server D
  finished s shutdown = if shutdown then (cleanup_client s c).1 else s

  rounds-empty :
      (s : Server D) (shutdown : Bool) (fuel : ℕ)
      → get_elem? s.queues address ≡ some (record { queue = []; shutdown = shutdown })
      → subscribe_rounds (suc fuel) s c address ≡ ([], shutdown, finished s shutdown)
  unfolding subscribe_rounds subscribe_popped pop
  rounds-empty s true fuel e = rw (e, subscribe_round, subscribe_rounds)
  rounds-empty s false fuel e = rw (e, subscribe_round, subscribe_rounds)

  emptied_empty :
      (s : Server D) (shutdown : Bool)
      → get_elem? s.queues address ≡ some (record { queue = []; shutdown = shutdown })
      → emptied s shutdown ≡ s
  emptied_empty s shutdown e =
      ap (λ (qs : List NotificationQueue). record s { queues = qs })
        (modify_same _ address s.queues e)

  abbrev popped : Server D → List Notification → Bool → Server D
  popped s l shutdown = record s {
    queues = modify (λ _. record { queue = l; shutdown = shutdown }) address s.queues;
  }

  emptied-popped :
      (s : Server D) (l : List Notification) (shutdown : Bool)
      → emptied (popped s l shutdown) shutdown ≡ emptied s shutdown
  emptied-popped s l shutdown =
      ap (λ (qs : List NotificationQueue). record s { queues = qs })
        (modify-modify _ _ address s.queues)

  rounds-cons :
      (s : Server D) (n : Notification) (l : List Notification) (shutdown : Bool) (fuel : ℕ)
      → get_elem? s.queues address ≡ some (record { queue = n ∷ l; shutdown = shutdown })
      → subscribe_rounds (suc fuel) s c address
        ≡ record_note n (subscribe_rounds fuel (popped s l shutdown) c address)
  unfolding subscribe_rounds subscribe_popped pop
  rounds-cons s n l shutdown fuel e = rw (e, subscribe_round, subscribe_rounds)

  -- When a subscription's queue holds `l`, every write is accepted and no other thread runs, the loop
  -- with more rounds than notifications writes exactly `l`, in its order, and empties the queue. If
  -- the queue was cancelled the loop then ends and cleans up after its client, so a cancelled
  -- subscription loses no notification; if not, it sleeps and changes nothing else.
  pub subscribe_rounds-drain :
      (l : List Notification) (s : Server D) (shutdown : Bool) (fuel : ℕ)
      → length l < fuel
      → get_elem? s.queues address ≡ some (record { queue = l; shutdown = shutdown })
      → subscribe_rounds fuel s c address ≡ (l, shutdown, finished (emptied s shutdown) shutdown)
  subscribe_rounds-drain l s shutdown zero h e = elim h [ ]
  subscribe_rounds-drain [] s shutdown (suc fuel) h e =
      rw (emptied_empty s shutdown e) (rounds-empty s shutdown fuel e)
  subscribe_rounds-drain (n ∷ l) s shutdown (suc fuel) h e =
      rounds-cons s n l shutdown fuel e
      ∙ rw
          (subscribe_rounds-drain l (popped s l shutdown) shutdown fuel (omega arith)
            (get_elem?-modify_self _ address s.queues _ e))
          (ap (λ (t : Server D). (n ∷ l, shutdown, finished t shutdown))
            (emptied-popped s l shutdown))
