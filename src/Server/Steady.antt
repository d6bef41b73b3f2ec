-- ===== src/Server/Steady.antt =====
-- The callbacks and the queries of the server, and its well-formed tables.

use distributed_filesystem.Base.{
  Bool, List, Option, [], false, if_ind, if◌then◌else◌, length, length-append, length-modify, none,
  option_ind, refl, some, subst, sym, true, ℕ, ◌≡◌,
}
use distributed_filesystem.Dict.{Dict, get, get-AllValues}
use distributed_filesystem.Members.{Distinct, contains, erase-Distinct, insert-Distinct}
use distributed_filesystem.Os.{CreateResult, Os, create_throws, created, not_created}
use distributed_filesystem.Server.Callbacks.{
  cancel_at, cleanup_client, file_change_callback_close, file_change_callback_rename,
  file_change_callback_unlink, notified,
}
use distributed_filesystem.Server.Delivery.{length-notify_clients}
use distributed_filesystem.Server.Queries.{initialise_code, make_directory, mkdir, request_dir}
use distributed_filesystem.Server.Queue.{NotificationQueue, cancel}
use distributed_filesystem.Server.State.{Ending, Server, returns, throws}
use distributed_filesystem.Server.Subscribe.{subscribe_start}
use distributed_filesystem.Server.WellFormed.{
  HasOwnQueues, IsClientSet, IsWatchMap, IsWellFormed, forget_client-IsWatchMap, insert-IsClientSet,
  put-IsWatchMap, remove-HasOwnQueues, remove-IsWatchMap, subscribe-HasOwnQueues,
}
use distributed_filesystem.Text.{Text, is_empty, text_eq}
use distributed_filesystem.Wire.{Notification, StatusCode}

length-cancel_at :
    (o : Option ℕ) (qs : List NotificationQueue) → length (cancel_at o qs) ≡ length qs
length-cancel_at none qs = refl
length-cancel_at (some i) qs = length-modify cancel i qs

resize-HasOwnQueues : (m : Dict ℕ) (k l : ℕ) → l ≡ k → HasOwnQueues m k → HasOwnQueues m l
resize-HasOwnQueues m k l e h = subst (HasOwnQueues m) (sym e) h

-- The state that a callback, or a handler with a reply, leaves.
abbrev pub Leaves {ℓ} : {A : Type ℓ} {D : Type 0} → A × Server D → Type 0
Leaves r = IsWellFormed r.1

abbrev pub Replies {ℓ κ} : {A : Type ℓ} {B : Type κ} {D : Type 0} → A × B × Server D → Type 0
Replies r = IsWellFormed r.2

module _ {D : Type 0} where
  notified-IsWellFormed :
      (s : Server D) (self : Text) (n : Notification) (clients : List Text)
      → IsWellFormed s
      → IsWellFormed (notified s self n clients)
  notified-IsWellFormed s self n clients w = record {
    watchers = w.watchers;
    openers = w.openers;
    clients = w.clients;
    own_queues =
        resize-HasOwnQueues s.subscribers _ _
          (length-notify_clients s.subscribers self n clients s.queues) w.own_queues;
  }

  with_file_map :
      (s : Server D) (m : Dict (List Text))
      → IsWatchMap m
      → IsWellFormed s
      → IsWellFormed (record s { file_map = m })
  with_file_map s m h w = record {
    watchers = h;
    openers = w.openers;
    clients = w.clients;
    own_queues = w.own_queues;
  }

  module _ (s : Server D) (w : IsWellFormed s) where
    pub callback_close-IsWellFormed :
        (path c : Text) (n : Notification) → IsWellFormed (file_change_callback_close s path c n).1
    unfolding file_change_callback_close
    callback_close-IsWellFormed path c n =
        if_ind Leaves s.file_map_locked _ _ (λ _. w)
          λ _.
            option_ind Leaves (get path s.file_map) _ _
              (λ _.
                with_file_map s _
                  (put-IsWatchMap path _ s.file_map (insert-IsClientSet c [] tt) w.watchers) w)
              (λ clients f. notified-IsWellFormed s c n clients w)

    pub callback_rename-IsWellFormed :
        (old_path new_path c : Text) (n : Notification)
        → IsWellFormed (file_change_callback_rename s old_path new_path c n).1
    unfolding file_change_callback_rename
    callback_rename-IsWellFormed old_path new_path c n =
        if_ind Leaves s.file_map_locked _ _ (λ _. w)
          λ _.
            option_ind Leaves (get old_path s.file_map) _ _
              (λ _. record {
                watchers = w.watchers;
                openers = w.openers;
                clients = w.clients;
                own_queues = w.own_queues;
              })
              (λ clients f.
                with_file_map (notified s c n clients) _
                  (remove-IsWatchMap old_path _ (
                    put-IsWatchMap new_path clients s.file_map
                      (get-AllValues IsClientSet old_path clients s.file_map w.watchers.1 f)
                      w.watchers))
                  (notified-IsWellFormed s c n clients w))

    pub callback_unlink-IsWellFormed :
        (path c : Text) (n : Notification) → IsWellFormed (file_change_callback_unlink s path c n).1
    unfolding file_change_callback_unlink
    callback_unlink-IsWellFormed path c n =
        if_ind Leaves s.file_map_locked _ _ (λ _. w)
          λ _.
            option_ind Leaves (get path s.file_map) _ _ (λ _. w)
              (λ clients f.
                with_file_map (notified s c n clients) _
                  (remove-IsWatchMap path s.file_map w.watchers)
                  (notified-IsWellFormed s c n clients w))

    pub cleanup_client-IsWellFormed : (c : Text) → IsWellFormed (cleanup_client s c).1
    unfolding cleanup_client
    cleanup_client-IsWellFormed c =
        if_ind Leaves s.file_map_locked _ _
          (λ _. record {
            watchers = w.watchers;
            openers = w.openers;
            clients = erase-Distinct c s.clients_db w.clients;
            own_queues = w.own_queues;
          })
          (λ _. record {
            watchers = forget_client-IsWatchMap c s.file_map w.watchers;
            openers = w.openers;
            clients = erase-Distinct c s.clients_db w.clients;
            own_queues =
                resize-HasOwnQueues _ _ _ (length-cancel_at (get c s.subscribers) s.queues)
                  (remove-HasOwnQueues s.subscribers (length s.queues) c w.own_queues);
          })

    -- A change of queues that keeps their number.
    pub requeued-IsWellFormed :
        (queues : List NotificationQueue)
        → length queues ≡ length s.queues
        → IsWellFormed (record s { queues = queues })
    requeued-IsWellFormed queues e = record {
      watchers = w.watchers;
      openers = w.openers;
      clients = w.clients;
      own_queues = resize-HasOwnQueues s.subscribers _ _ e w.own_queues;
    }

    pub with_disk : (d : D) → IsWellFormed (record s { disk = d })
    with_disk d = record {
      watchers = w.watchers;
      openers = w.openers;
      clients = w.clients;
      own_queues = w.own_queues;
    }

    pub subscribe_start-IsWellFormed : (c : Text) → IsWellFormed (subscribe_start s c).1
    unfolding subscribe_start
    subscribe_start-IsWellFormed c = record {
      watchers = w.watchers;
      openers = w.openers;
      clients = w.clients;
      own_queues =
          resize-HasOwnQueues _ _ _ (length-append s.queues _)
            (subscribe-HasOwnQueues s.subscribers (length s.queues) c w.own_queues);
    }

    with_clients :
        (clients : List Text) → Distinct clients → IsWellFormed (record s { clients_db = clients })
    with_clients clients d = record {
      watchers = w.watchers;
      openers = w.openers;
      clients = d;
      own_queues = w.own_queues;
    }

    pub request_dir-IsWellFormed :
        (os : Os D) (code client_id : Text) → IsWellFormed (request_dir os s code client_id).2
    unfolding request_dir
    request_dir-IsWellFormed os code client_id =
        if_ind Replies (text_eq code initialise_code) _ _
          (λ _.
            if_ind IsWellFormed (is_empty client_id) _ _ (λ _. w)
              λ _.
                if_ind IsWellFormed (contains client_id s.clients_db) _ _ (λ _. w)
                  λ _. with_clients _ (insert-Distinct client_id s.clients_db w.clients))
          (λ _. w)

    make_directory-IsWellFormed :
        (os : Os D) (directory : Text) (mode : ℕ)
        → IsWellFormed (make_directory os s directory mode).1
    unfolding make_directory
    make_directory-IsWellFormed os directory mode =
        go (os.create_directory s.disk directory).0 (os.create_directory s.disk directory).1
      where
        go :
            (result : CreateResult) (d : D)
            → Leaves {A = Ending} {D = D} (elim result [
              | create_throws ↦ (returns StatusCode.internal, record s { disk = d })
              | not_created ↦ (returns StatusCode.permission_denied, record s { disk = d })
              | created ↦
                  let (done, e) = os.set_permissions d directory mode in
                  (
                    returns (if done then StatusCode.ok else StatusCode.internal),
                    record s { disk = e },
                  )
            ])
        go created d = with_disk _
        go not_created d = with_disk _
        go create_throws d = with_disk _

    pub mkdir-IsWellFormed :
        (os : Os D) (directory : Text) (mode : ℕ) → IsWellFormed (mkdir os s directory mode).1
    unfolding mkdir
    mkdir-IsWellFormed os directory mode =
        go (os.exists s.disk directory) (os.is_dir s.disk directory)
      where
        go :
            (o q : Option Bool)
            → Leaves {A = Ending} {D = D} (elim o [
              | none ↦ (throws, s)
              | some true ↦ elim q [
                | none ↦ (throws, s)
                | some false ↦ (returns StatusCode.invalid_argument, s)
                | some true ↦ (returns StatusCode.ok, s)
              ]
              | some false ↦ make_directory os s directory mode
            ])
        go none q = w
        go (some true) none = w
        go (some true) (some true) = w
        go (some true) (some false) = w
        go (some false) q = make_directory-IsWellFormed os directory mode
