-- ===== src/Client/Connecting.antt =====
-- The constructor of Basic_Operation/client_code/filesystem_client.cpp, without the thread that it
-- starts for `RunSubscriber`. The new `client_id`, a random UUID, is an argument.

use distributed_filesystem.Base.{[], if◌then◌else◌, ℕ}
use distributed_filesystem.Client.State.{Client}
use distributed_filesystem.Client.Stub.{Stub}
use distributed_filesystem.Text.{Text, lit}
use distributed_filesystem.Wire.{is_ok}

unfoldable pub connect : {D N : Type 0} → Stub N → D → N → Text → Text → ℕ → ℕ → Client D × N
connect stub d net client_id cache_directory uid gid =
    let (status, root_path, net') =
      stub.request_dir net (lit "I want input/output directory") client_id in
    (
      record {
        disk = d;
        cache = [];
        opened_files = [];
        file_mutexes = [];
        cached_attr = [];
        server_root_path = if is_ok status then root_path else lit "/";
        client_id = client_id;
        cache_directory = cache_directory;
        uid = uid;
        gid = gid;
      },
      net',
    )
