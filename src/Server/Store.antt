-- ===== src/Server/Store.antt =====
-- What the handlers `open`, `close` and `unlink` of Basic_Operation/server_code/filesystem_server.cpp
-- stand for: a map from paths to bytes. The requests that clients send, what they get back from the
-- handlers, and what they would get from the map.

use distributed_filesystem.Base.{
  List, Option, [], concat, false, if◌then◌else◌, map, none, some, true, ℕ, ◌∷◌, ◌≡◌,
}
use distributed_filesystem.Os.{Os}
use distributed_filesystem.Server.Namespace.{unlink_handler}
use distributed_filesystem.Server.Roundtrip.{contents}
use distributed_filesystem.Server.State.{Ending, Server, returns}
use distributed_filesystem.Server.Transfer.{close_handler, open_handler}
use distributed_filesystem.Server.Upload.{upload_request}
use distributed_filesystem.Text.{Text, is_empty, join_path, parent_path, text_eq}
use distributed_filesystem.Wire.{FileRequest, FileResponse, StatusCode}

abbrev pub bytes_of_file : (ℕ → List ℕ) → Option ℕ → Option (List ℕ)
bytes_of_file bytes none = none
bytes_of_file bytes (some h) = some (bytes h)

-- The bytes that a reader of a path finds.
abbrev pub holds : {D : Type 0} → Os D → D → Text → Option (List ℕ)
holds os d p = bytes_of_file (os.bytes d) (os.open_read d p)

-- A map from paths to bytes, and the change of one entry.
abbrev pub Store : Type 0
Store = Text → Option (List ℕ)

abbrev pub store_at : Store → Text → Option (List ℕ) → Store
store_at m p content q = if text_eq p q then content else m q

-- Documented behaviour of a disk with room, for the paths `Named` of files that the server may make
-- and remove, as long as no two of them name one file (`Plain`): folders can be made, files can be
-- opened and are gone once they are removed, and a call changes the one file that it is about.
pub record KeepsApart {D : Type 0} (os : Os D) (Plain : D → Type 0) (Named : Text → Type 0)
    : Type 0 where
  pub makes : (d : D) (p : Text) → Named p → (os.create_directories d (parent_path p)).0 ≡ true
  pub makes_plain : (d : D) (p : Text) → Plain d → Plain (os.create_directories d p).1
  pub makes_holds :
      (d : D) (p q : Text)
      → Named q
      → Plain d
      → holds os (os.create_directories d p).1 q ≡ holds os d q
  pub empties : (d : D) (p : Text) → Named p → (h : ℕ) × ((os.open_trunc d p).0 ≡ some h)
  pub empties_plain : (d : D) (p : Text) → Named p → Plain d → Plain (os.open_trunc d p).1
  pub empties_holds :
      (d : D) (p q : Text)
      → Named p
      → Named q
      → Plain d
      → text_eq p q ≡ false
      → holds os (os.open_trunc d p).1 q ≡ holds os d q
  pub writes_plain :
      (d : D) (h position : ℕ) (bs : List ℕ) → Plain d → Plain (os.write_at d h position bs).1
  pub writes_holds :
      (d : D) (p q : Text) (h position : ℕ) (bs : List ℕ)
      → Named p
      → Named q
      → Plain d
      → os.open_read d p ≡ some h
      → text_eq p q ≡ false
      → holds os (os.write_at d h position bs).1 q ≡ holds os d q
  pub removes_plain : (d : D) (p : Text) → Named p → Plain d → Plain (os.remove d p).1
  pub removes_holds :
      (d : D) (p q : Text)
      → Named p
      → Named q
      → Plain d
      → holds os (os.remove d p).1 q ≡ store_at (holds os d) p none q

-- What a client sends: an upload in one or more messages, a request for a file, a removal.
pub data Request : Type 0 where
  uploads : (directory filename client_id : Text) (c : List ℕ) (cs : List (List ℕ)) → Request
  fetches : (directory filename client_id : Text) → Request
  removes : (directory client_id : Text) → Request

-- What a client has from the answer to a request for a file.
abbrev pub content_of : Ending → List FileResponse → Option (List ℕ)
content_of (returns StatusCode.ok) responses = some (concat (contents responses))
content_of _ responses = none

-- The request of `open_file`: the message for `open`.
abbrev pub fetch_request : Text → Text → Text → FileRequest
fetch_request directory filename client_id = record {
  filename = filename;
  directory = directory;
  content = [];
  client_id = client_id;
}

-- What the clients get from the handlers, request by request.
module _ {D : Type 0} (os : Os D) where
  unfoldable pub observed : Server D → List Request → List (Option (List ℕ))
  observed s [] = []
  observed s (uploads directory filename client_id c cs ∷ rest) =
      observed (close_handler os s (map (upload_request directory filename client_id) (c ∷ cs))).2
        rest
  observed s (fetches directory filename client_id ∷ rest) =
      let (ending, responses, t) =
        open_handler os (λ _. true) s (fetch_request directory filename client_id) in
      content_of ending responses ∷ observed t rest
  observed s (removes directory client_id ∷ rest) =
      observed (unlink_handler os s directory client_id).1 rest

-- What they would get from the map.
unfoldable pub recalled : Store → List Request → List (Option (List ℕ))
recalled m [] = []
recalled m (uploads directory filename client_id c cs ∷ rest) =
    recalled (store_at m (join_path directory filename) (some (concat (c ∷ cs)))) rest
recalled m (fetches directory filename client_id ∷ rest) =
    m (join_path directory filename) ∷ recalled m rest
recalled m (removes directory client_id ∷ rest) = recalled (store_at m directory none) rest

-- The requests are for paths in `Named`, and an upload has a file name.
abbrev pub AllNamed : (Text → Type 0) → List Request → Type 0
AllNamed Named [] = Unit {0}
AllNamed Named (uploads directory filename client_id c cs ∷ rest) =
    (is_empty filename ≡ false) × Named (join_path directory filename) × AllNamed Named rest
AllNamed Named (fetches directory filename client_id ∷ rest) =
    Named (join_path directory filename) × AllNamed Named rest
AllNamed Named (removes directory client_id ∷ rest) = Named directory × AllNamed Named rest
