-- ===== src/Server/Inbox.antt =====
-- What each client is told: the callbacks of
-- Basic_Operation/server_code/filesystem_server.cpp seen through the queue of each subscriber.

-- The notifications that wait for a client; `none` where it has no subscription.

use distributed_filesystem.Base.{
  Bool, List, Option, Option-cases, [], false, get_elem?, get_elem?-lt, if◌then◌else◌, inl, inr,
  length, none, not, refl, some, true, ℕ, ◌&&◌, ◌++◌, ◌∷◌, ◌≡◌,
}
use distributed_filesystem.Dict.{get, put}
use distributed_filesystem.Members.{Distinct, contains, insert}
use distributed_filesystem.Server.Callbacks.{file_change_callback_close, notified}
use distributed_filesystem.Server.Delivery.{get_elem?-notify_clients}
use distributed_filesystem.Server.Queue.{NotificationQueue, push}
use distributed_filesystem.Server.State.{Server}
use distributed_filesystem.Server.WellFormed.{IsWellFormed}
use distributed_filesystem.Text.{Text, text_eq}
use distributed_filesystem.Wire.{Notification}

unfoldable pub inbox : {D : Type 0} → Server D → Text → Option (List Notification)
inbox s c = elim (get c s.subscribers) [
  | none ↦ none
  | some i ↦ elim (get_elem? s.queues i) [ none ↦ none | some q ↦ some q.queue ]
]

-- One more notification, if there is an inbox.
abbrev pub told : Notification → Option (List Notification) → Option (List Notification)
told n none = none
told n (some l) = some (l ++ n ∷ [])

queue-told :
    (b : Bool) (n : Notification) (q : NotificationQueue)
    → some (if b then push n q else q).queue ≡ (if b then told n (some q.queue) else some q.queue)
unfolding push
queue-told true n q = refl
queue-told false n q = refl

module _ {D : Type 0} where
  pub inbox-some :
      (s : Server D) (c : Text) (i : ℕ) (q : NotificationQueue)
      → get c s.subscribers ≡ some i
      → get_elem? s.queues i ≡ some q
      → inbox s c ≡ some q.queue
  unfolding inbox
  inbox-some s c i q e f = rw (e, f, inbox)

  pub inbox-none : (s : Server D) (c : Text) → get c s.subscribers ≡ none → inbox s c ≡ none
  unfolding inbox
  inbox-none s c e = rw (e, inbox)

module _ {D : Type 0} (s : Server D) (w : IsWellFormed s) where
  pub inbox-notified :
      (self : Text) (n : Notification) (clients : List Text) (c : Text)
      → Distinct clients
      → inbox (notified s self n clients) c
        ≡ (if contains c clients && not (text_eq c self) then told n (inbox s c) else inbox s c)
  inbox-notified self n clients c h = elim (Option-cases (get c s.subscribers)) [
    | inl e ↦
        rw (inbox-none (notified s self n clients) c e, inbox-none s c e)
          (same (contains c clients && not (text_eq c self)))
    | inr (i, e) ↦
        let (q, f) = get_elem?-lt s.queues i (w.own_queues.allocated c i e) in
        let f' =
          get_elem?-notify_clients s.subscribers (length s.queues) w.own_queues self n c i e clients
            s.queues q h f in
        rw (inbox-some (notified s self n clients) c i _ e f', inbox-some s c i q e f)
          (queue-told (contains c clients && not (text_eq c self)) n q)
  ]
    where
      same : (b : Bool) → none ≡ (if b then told n none else none)
      same true = refl
      same false = refl

  module _ (unlocked : s.file_map_locked ≡ false) (path self : Text) (n : Notification) where
    pub callback_close-some :
        (clients : List Text)
        → get path s.file_map ≡ some clients
        → file_change_callback_close s path self n ≡ (true, notified s self n clients)
    unfolding file_change_callback_close
    callback_close-some clients e = simp (unlocked, e)

    pub callback_close-none :
        get path s.file_map ≡ none
        → file_change_callback_close s path self n
          ≡ (true, record s { file_map = put path (insert self []) s.file_map })
    unfolding file_change_callback_close
    callback_close-none e = simp (unlocked, e)
