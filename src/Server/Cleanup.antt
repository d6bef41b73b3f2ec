-- ===== src/Server/Cleanup.antt =====
-- `cleanup_client` of Basic_Operation/server_code/filesystem_server.cpp forgets one client and
-- touches no other.

-- The notifications that wait at an address.

use distributed_filesystem.Base.{
  Bool-cases, List, Option, [], false, get_elem?, if◌then◌else◌, inl, inr, modify, none, not, refl,
  some, suc, true, zero, ℕ, ◌&&◌, ◌∷◌, ◌≡◌,
}
use distributed_filesystem.Dict.{get, get-remove, remove}
use distributed_filesystem.Members.{contains, contains-erase, erase}
use distributed_filesystem.Server.Callbacks.{cancel_at, cleanup_client, forget_client}
use distributed_filesystem.Server.Inbox.{inbox}
use distributed_filesystem.Server.Queue.{NotificationQueue, cancel}
use distributed_filesystem.Server.State.{Server}
use distributed_filesystem.Server.Watches.{watches, watches-forget_client}
use distributed_filesystem.Server.WellFormed.{IsWellFormed}
use distributed_filesystem.Text.{Text, text_eq, text_eq_refl}
use distributed_filesystem.Wire.{Notification}

abbrev notes_at : List NotificationQueue → ℕ → Option (List Notification)
notes_at queues i = elim (get_elem? queues i) [ none ↦ none | some q ↦ some q.queue ]

notes_at-cancel :
    (queues : List NotificationQueue) (j i : ℕ)
    → notes_at (modify cancel j queues) i ≡ notes_at queues i
unfolding cancel
notes_at-cancel [] j i = refl
notes_at-cancel (q ∷ queues) zero zero = refl
notes_at-cancel (q ∷ queues) zero (suc i) = refl
notes_at-cancel (q ∷ queues) (suc j) zero = refl
notes_at-cancel (q ∷ queues) (suc j) (suc i) = notes_at-cancel queues j i

notes_at-cancel_at :
    (queues : List NotificationQueue) (o : Option ℕ) (i : ℕ)
    → notes_at (cancel_at o queues) i ≡ notes_at queues i
notes_at-cancel_at queues none i = refl
notes_at-cancel_at queues (some j) i = notes_at-cancel queues j i

module _ {D : Type 0} (s : Server D) (w : IsWellFormed s) (unlocked : s.file_map_locked ≡ false)
    (c : Text) where
  cleaned : cleanup_client s c ≡ (
    true,
    record s {
      clients_db = erase c s.clients_db;
      file_map = forget_client c s.file_map;
      queues = cancel_at (get c s.subscribers) s.queues;
      subscribers = remove c s.subscribers;
    },
  )
  unfolding cleanup_client
  cleaned = simp unlocked

  inbox-cleaned :
      (k : Text) → inbox (cleanup_client s c).1 k ≡ (if text_eq c k then none else inbox s k)
  unfolding inbox
  inbox-cleaned k = rw cleaned (elim (Bool-cases (text_eq c k)) [
    | inl e ↦ rw (get-remove c k s.subscribers, e, inbox)
    | inr e ↦ rw (get-remove c k s.subscribers, e, inbox) (others (get k s.subscribers))
  ])
    where
      others :
          (o : Option ℕ)
          → ◌≡◌ {A = Option (List Notification)}
              (elim o [
                | none ↦ none
                | some i ↦ notes_at (cancel_at (get c s.subscribers) s.queues) i
              ])
              (elim o [ none ↦ none | some i ↦ notes_at s.queues i ])
      others none = refl
      others (some i) = notes_at-cancel_at s.queues (get c s.subscribers) i

  -- While `file_map_mutex` is free, the cleanup returns; the client is then in neither `clients_db`
  -- nor any set of `file_map`, and has no subscription; every other client keeps its registrations
  -- and its inbox; and `file_map_open` is as it was, the client's entries included.
  pub cleanup_client-forgets :
      ((cleanup_client s c).0 ≡ true)
      × (contains c (cleanup_client s c).1.clients_db ≡ false)
      × ((p k : Text)
          → watches (cleanup_client s c).1.file_map p k
            ≡ (not (text_eq c k) && watches s.file_map p k))
      × ((k : Text) → inbox (cleanup_client s c).1 k ≡ (if text_eq c k then none else inbox s k))
      × ((cleanup_client s c).1.file_map_open ≡ s.file_map_open)
  cleanup_client-forgets = (
    rw cleaned,
    rw cleaned (rw (contains-erase c c s.clients_db, text_eq_refl c)),
    λ p k. rw cleaned (watches-forget_client c p k s.file_map w.watchers.0),
    inbox-cleaned,
    rw cleaned,
  )
