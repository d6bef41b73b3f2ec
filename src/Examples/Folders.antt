-- ===== src/Examples/Folders.antt =====
-- A folder of the server, shown to an application.

use distributed_filesystem.Base.{[], refl, some, true, ◌∷◌, ◌≡◌}
use distributed_filesystem.Client.Connecting.{connect}
use distributed_filesystem.Dict.{put}
use distributed_filesystem.Examples.Memory.{Memory, memory}
use distributed_filesystem.Examples.Sessions.{start}
use distributed_filesystem.Examples.Uploads.{shared}
use distributed_filesystem.Fuse.Changes.{afs_readdir}
use distributed_filesystem.Fuse.Listing.{Entries, Shows, afs_readdir-Shows}
use distributed_filesystem.Os.{Os, is_directory, is_other, is_regular_file}
use distributed_filesystem.Server.Calls.{run}
use distributed_filesystem.Server.Queries.{ls}
use distributed_filesystem.Server.State.{new_server}
use distributed_filesystem.System.Network.{server_stub}
use distributed_filesystem.Text.{lit}

-- A folder with a file, a folder and a socket.
abbrev entries : Entries
entries = (lit "b", is_regular_file) ∷ (lit "a", is_directory) ∷ (lit "s", is_other) ∷ []

abbrev folder : Os Memory
folder = record memory {
  exists = λ d p. some true;
  is_dir = λ d p. some true;
  list_dir = λ d p. some entries;
}

readdir_names :
    (afs_readdir memory (server_stub folder) start.0 shared (lit "/")).1
    ≡ lit "." ∷ lit ".." ∷ lit "a" ∷ lit "b" ∷ []
unfolding connect run memory new_server afs_readdir server_stub ls put
readdir_names = refl

afs_readdir-Shows_example :
    Shows shared (some entries) (afs_readdir memory (server_stub folder) start.0 shared (lit "/"))
unfolding memory
afs_readdir-Shows_example = afs_readdir-Shows memory folder start.0 shared (lit "/")
