-- ===== src/Server/Delivery.antt =====
-- Who is told of a change: `file_change_callback_close` and its two siblings seen through the
-- queue of each client.
use distributed_filesystem.Base.{
  ℕ, ◌≡◌, refl, ◌∙◌, Bool, true, false, not, ◌&&◌, List, [], ◌∷◌, some, none, Option, arith, length,
  if◌then◌else◌, Option-cases, inl, inr, get_elem?, get_elem?-modify_self, get_elem?-modify_ne,
  length-modify,
}
use distributed_filesystem.Text.{Text, text_eq, text_eq_iff}
use distributed_filesystem.Dict.{Dict, get}
use distributed_filesystem.Members.{Distinct, contains}
use distributed_filesystem.Wire.{Notification}
use distributed_filesystem.Server.Queue.{NotificationQueue, push}
use distributed_filesystem.Server.Callbacks.{notify_clients, push_to}
use distributed_filesystem.Server.WellFormed.{HasOwnQueues}

pub length-notify_clients :
    (subscribers : Dict ℕ) (self : Text) (n : Notification) (clients : List Text)
    (queues : List NotificationQueue)
    → length (notify_clients subscribers self n clients queues) ≡ length queues
unfolding notify_clients
length-notify_clients subscribers self n [] queues = refl
length-notify_clients subscribers self n (c ∷ rest) queues =
    length-notify_clients subscribers self n rest _
    ∙ length-step (text_eq c self) (get c subscribers)
  where
    length-step :
        (b : Bool) (o : Option ℕ)
        → length (if b then queues else push_to o n queues) ≡ length queues
    length-step true o = refl
    length-step false none = refl
    length-step false (some i) = length-modify (push n) i queues

module _ (subscribers : Dict ℕ) (limit : ℕ) (own : HasOwnQueues subscribers limit) (self : Text)
    (n : Notification) (c : Text) (i : ℕ) (at_i : get c subscribers ≡ some i) where
  -- One round of the loop, as the queue at `i` sees it.
  notify_round :
      (d : Text) (queues : List NotificationQueue) (q : NotificationQueue)
      → get_elem? queues i ≡ some q
      → get_elem? (if text_eq d self then queues else push_to (get d subscribers) n queues) i
        ≡ some (if text_eq d c && not (text_eq c self) then push n q else q)
  notify_round d queues q e = elim (Option-cases (get d subscribers)) [
    | inl missing ↦ rw missing (ground (arith, text_eq_iff d c))
    | inr (j, at_j) ↦ rw at_j (
        ground (
          arith,
          text_eq_iff d c,
          text_eq_iff c self,
          text_eq_iff d self,
          own.separate d c i,
          get_elem?-modify_self (push n) i queues q,
          get_elem?-modify_ne (push n) j i queues,
        ))
  ]

  pub get_elem?-notify_clients :
      (clients : List Text) (queues : List NotificationQueue) (q : NotificationQueue)
      → Distinct clients
      → get_elem? queues i ≡ some q
      → get_elem? (notify_clients subscribers self n clients queues) i
        ≡ some (if contains c clients && not (text_eq c self) then push n q else q)
  unfolding notify_clients contains
  get_elem?-notify_clients [] queues q h e = e
  get_elem?-notify_clients (d ∷ rest) queues q h e =
      get_elem?-notify_clients rest _ _ h.1 (notify_round d queues q e)
      ∙ ground (arith, text_eq_iff d c)
