-- ===== src/System/Loopback.antt =====
-- What one side sends is what the other side takes in: the messages of `close_file`
-- (Basic_Operation/client_code/filesystem_client.cpp) and of the handler `open`
-- (Basic_Operation/server_code/filesystem_server.cpp).

use distributed_filesystem.Base.{
  List, Option, [], ap, arith, chunks, concat, if_ind, if◌then◌else◌, length, map, none, refl, some,
  suc, true, ℕ, ◌++◌, ◌==◌, ◌∙◌, ◌∷◌, ◌≡◌,
}
use distributed_filesystem.Client.Closing.{content_chunks, taken, upload_requests}
use distributed_filesystem.Client.Received.{received}
use distributed_filesystem.Os.{Os}
use distributed_filesystem.Server.Roundtrip.{contents}
use distributed_filesystem.Server.State.{Ending, Server}
use distributed_filesystem.Server.Transfer.{open_handler, send_file, write_chunks}
use distributed_filesystem.Server.Upload.{upload_request}
use distributed_filesystem.Text.{Text}
use distributed_filesystem.Wire.{FileRequest, FileResponse}

pub taken_all : (k : ℕ) (requests : List FileRequest) → taken (λ _. true) k requests ≡ requests
unfolding taken
taken_all k [] = refl
taken_all k (r ∷ rest) = ap (◌∷◌ r) (taken_all (suc k) rest)

pub upload_requests-map :
    (directory filename client_id : Text) (pieces : List (List ℕ))
    → upload_requests directory filename client_id pieces
      ≡ map (upload_request directory filename client_id) pieces
unfolding upload_requests upload_request
upload_requests-map directory filename client_id [] = refl
upload_requests-map directory filename client_id (piece ∷ rest) =
    ap (◌∷◌ (upload_request directory filename client_id piece))
      (upload_requests-map directory filename client_id rest)

-- At least one message is sent.
pub content_chunks-cons :
    (bs : List ℕ) → (c : List ℕ) × (cs : List (List ℕ)) × (content_chunks bs ≡ c ∷ cs)
unfolding chunks
content_chunks-cons [] = ([], [], refl)
content_chunks-cons (b ∷ bs) = (_, _, refl)

abbrev received_piece : List ℕ → List ℕ
received_piece piece = if length piece == 0 then [] else piece

received_piece_lem : (piece : List ℕ) → received_piece piece ≡ piece
received_piece_lem [] = refl
received_piece_lem (b ∷ bs) = ground arith

received-write_chunks :
    (k timestamp : ℕ) (pieces : List (List ℕ))
    → received (write_chunks (λ _. true) k timestamp pieces).0
      ≡ concat (contents (write_chunks (λ _. true) k timestamp pieces).0)
unfolding write_chunks concat
received-write_chunks k timestamp [] = refl
received-write_chunks k timestamp (piece ∷ rest) =
    ap (◌++◌ (received_piece piece)) (received-write_chunks (suc k) timestamp rest)
    ∙ ap (λ xs. xs ++ concat (contents (write_chunks (λ _. true) (suc k) timestamp rest).0))
        (received_piece_lem piece)

received-send_file :
    {D : Type 0} (os : Os D) (s : Server D) (path : Text) (o : Option ℕ)
    → received (send_file os (λ _. true) s path o).1
      ≡ concat (contents (send_file os (λ _. true) s path o).1)
unfolding send_file concat
received-send_file os s path none = refl
received-send_file os s path (some h) = received-write_chunks 0 _ _

-- The client leaves out messages of length 0, and the server's have no content.
pub received-open_handler :
    {D : Type 0} (os : Os D) (s : Server D) (request : FileRequest)
    → received (open_handler os (λ _. true) s request).1
      ≡ concat (contents (open_handler os (λ _. true) s request).1)
unfolding open_handler concat
received-open_handler {D} os s request =
    if_ind (λ (r : Ending × List FileResponse × Server D). received r.1 ≡ concat (contents r.1))
      s.file_map_locked _ _ (λ _. refl) (λ _. received-send_file os _ _ _)
