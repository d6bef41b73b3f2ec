-- ===== src/Client/Fewer.antt =====
-- The calls of Basic_Operation/client_code/filesystem_client.cpp that put nothing new into the cache.

-- The same client, with no file in its cache that was not there.
use distributed_filesystem.Base.{
  Bool, List, Option, arith, if_ind, negsuc, not, option_ind, pos, refl, sym, true, ℕ, ℤ, ◌||◌, ◌∙◌,
  ◌≡◌,
}
use distributed_filesystem.Client.Closing.{
  close_file, close_found, close_streams, finish_upload, record_upload, upload_file,
}
use distributed_filesystem.Client.Files.{erase_opened, find_streams, has_key}
use distributed_filesystem.Client.Metadata.{get_attributes, truncate_file}
use distributed_filesystem.Client.Paths.{cache_dir, file_location, resolve_server_path, server_key}
use distributed_filesystem.Client.Reading.{
  read_file, read_found, read_sized, seeks, with_read_stream,
}
use distributed_filesystem.Client.State.{
  Answer, Client, FileAttributes, FileInfo, FileStreams, update,
}
use distributed_filesystem.Client.Stub.{Stub}
use distributed_filesystem.Client.Subscriber.{handle_notification, invalidate}
use distributed_filesystem.Client.Tables.{has_key-remove, has_key-update}
use distributed_filesystem.Client.Writing.{record_write, with_write_stream, write_file, write_found}
use distributed_filesystem.Dict.{get}
use distributed_filesystem.Members.{contains}
use distributed_filesystem.Os.{Os}
use distributed_filesystem.Text.{Text}
use distributed_filesystem.Wire.{Notification, StatusCode, is_ok}

abbrev pub Fewer : {D : Type 0} → Client D → Client D → Type 0
Fewer c c' =
    (c'.client_id ≡ c.client_id)
    × (c'.cache_directory ≡ c.cache_directory)
    × (c'.server_root_path ≡ c.server_root_path)
    × ((j : Text) → has_key j c'.cache ≡ true → has_key j c.cache ≡ true)

-- The same, with nothing gone from the cache either.
abbrev SameKeys : {D : Type 0} → Client D → Client D → Type 0
SameKeys c c' =
    (c'.client_id ≡ c.client_id)
    × (c'.cache_directory ≡ c.cache_directory)
    × (c'.server_root_path ≡ c.server_root_path)
    × ((j : Text) → has_key j c'.cache ≡ has_key j c.cache)

same_keys : {D : Type 0} (c : Client D) → Fewer c c
same_keys c = (refl, refl, refl, λ j h. h)

module _ {D : Type 0} (os : Os D) (c : Client D) where
  with_update :
      (location : Text) (f : FileInfo → FileInfo)
      → (j : Text) → has_key j (update location f c.cache) ≡ true
      → has_key j c.cache ≡ true
  with_update location f j h = sym (has_key-update location j f c.cache) ∙ h

  write_found-Fewer :
      (location key : Text) (streams : FileStreams) (content : List ℕ) (position : ℕ)
      → Fewer c (write_found os c location key streams content position).1
  unfolding write_found record_write with_write_stream
  write_found-Fewer location key streams content position =
      if_ind (λ (r : Bool × Client D). Fewer c r.1)
        (streams.write_stream.failed || not streams.write_stream.is_open) _ _
        (λ _. (refl, refl, refl, λ j h. h))
        (λ _.
          if_ind (λ (r : Bool × Client D). Fewer c r.1)
            (os.write_at c.disk streams.write_stream.handle position content).0 _ _
            (λ _. (refl, refl, refl, with_update location _)) (λ _. (refl, refl, refl, λ j h. h)))

  pub write_file-Fewer :
      (filename : Text) (content : List ℕ) (directory : Text) (position : ℕ)
      → Fewer c (write_file os c filename content directory position).1
  unfolding write_file
  write_file-Fewer filename content directory position =
      let location = file_location c (resolve_server_path c directory) filename in
      option_ind (λ (r : Bool × Client D). Fewer c r.1) (find_streams c location) _ _
        (λ _. same_keys c) (λ streams _. write_found-Fewer location _ streams content position)

  read_sized-Fewer :
      (location : Text) (streams : FileStreams) (size : ℤ) (position : ℕ)
      → Fewer c (read_sized os c location streams size position).2
  unfolding read_sized with_read_stream
  read_sized-Fewer location streams (negsuc n) position = same_keys c
  read_sized-Fewer location streams (pos n) position = (refl, refl, refl, λ j h. h)

  read_found-Fewer :
      (location : Text) (streams : FileStreams) (size offset : ℤ)
      → Fewer c (read_found os c location streams size offset).2
  unfolding read_found with_read_stream
  read_found-Fewer location streams size offset =
      option_ind (λ (r : Answer × List ℕ × Client D). Fewer c r.2)
        (seeks streams.read_stream offset) _ _ (λ _. (refl, refl, refl, λ j h. h))
        (λ position _. read_sized-Fewer location streams size position)

  pub read_file-Fewer :
      (filename directory : Text) (size offset : ℤ)
      → Fewer c (read_file os c filename directory size offset).2
  unfolding read_file
  read_file-Fewer filename directory size offset =
      let location = file_location c (resolve_server_path c directory) filename in
      option_ind (λ (r : Answer × List ℕ × Client D). Fewer c r.2) (find_streams c location) _ _
        (λ _. same_keys c) (λ streams _. read_found-Fewer location streams size offset)

  pub truncate_file-Fewer :
      (filename path : Text) (size : ℤ) → Fewer c (truncate_file os c filename path size).1
  unfolding truncate_file
  truncate_file-Fewer filename path size = (refl, refl, refl, λ j h. h)

pub handle_notification-Fewer :
    {D : Type 0} (c : Client D) (note : Notification) → Fewer c (handle_notification c note)
unfolding handle_notification invalidate
handle_notification-Fewer {D} c note =
    let location = cache_dir c note.directory in
    if_ind (Fewer c) (has_key location c.opened_files) _ _ (λ _. same_keys c)
      (λ _.
        option_ind (Fewer c) (get location c.cache) _ _ (λ _. same_keys c)
          (λ info _. (refl, refl, refl, λ j h. ground (arith, has_key-remove location j c.cache))))

module _ {D N : Type 0} (os : Os D) (stub : Stub N) (c : Client D) where
  pub get_attributes-Fewer :
      (net : N) (filename path : Text) → Fewer c (get_attributes os stub c net filename path).1
  unfolding get_attributes
  get_attributes-Fewer net filename path =
      option_ind (λ (r : Option FileAttributes × Client D × N). Fewer c r.1)
        (get (server_key (resolve_server_path c path) filename) c.cached_attr) _ _
        (λ _.
          if_ind (λ (r : Option FileAttributes × Client D × N). Fewer c r.1)
            (is_ok (stub.getattr net (resolve_server_path c path) filename).0) _ _
            (λ _. (refl, refl, refl, λ j h. h)) (λ _. same_keys c))
        (λ a _. same_keys c)

  finish_upload-SameKeys :
      (location key : Text) (streams : FileStreams) (r : StatusCode × ℕ × N)
      → SameKeys c (finish_upload os stub (close_streams c location streams) location key r).1
  unfolding finish_upload record_upload close_streams erase_opened
  finish_upload-SameKeys location key streams (status, timestamp, net) =
      if_ind (λ (r : Bool × Client D × N). SameKeys c r.1) (is_ok status) _ _
        (λ _. (refl, refl, refl, λ j. has_key-update location j _ c.cache))
        (λ _. (refl, refl, refl, λ j. refl))

  upload_file-SameKeys :
      (net : N) (resolved filename location : Text) (streams : FileStreams)
      → SameKeys c
          (upload_file os stub (close_streams c location streams) net resolved filename location).1
  unfolding upload_file close_streams
  upload_file-SameKeys net resolved filename location streams =
      option_ind (λ (r : Bool × Client D × N). SameKeys c r.1) (os.open_read c.disk location) _ _
        (λ _. (refl, refl, refl, λ j. refl)) (λ h _. finish_upload-SameKeys location _ streams _)

  close_found-SameKeys :
      (net : N) (resolved filename location : Text) (streams : FileStreams) (info : FileInfo)
      → SameKeys c (close_found os stub c net resolved filename location streams info).1
  unfolding close_found erase_opened
  close_found-SameKeys net resolved filename location streams info =
      if_ind (λ (r : Bool × Client D × N). SameKeys c r.1) info.locally_modified _ _
        (λ _.
          if_ind (λ (r : Bool × Client D × N). SameKeys c r.1) streams.write_stream.failed _ _
            (λ _. (refl, refl, refl, λ j. refl))
            (λ _. upload_file-SameKeys net resolved filename location streams))
        (λ _. (refl, refl, refl, λ j. refl))

  close_file-SameKeys :
      (net : N) (filename directory : Text)
      → SameKeys c (close_file os stub c net filename directory).1
  unfolding close_file erase_opened
  close_file-SameKeys net filename directory =
      let location = file_location c (resolve_server_path c directory) filename in
      option_ind (λ (r : Bool × Client D × N). SameKeys c r.1) (get location c.opened_files) _ _
        (λ _. (refl, refl, refl, λ j. refl))
        (λ streams _.
          if_ind (λ (r : Bool × Client D × N). SameKeys c r.1) (contains location c.file_mutexes) _
            _
            (λ _.
              option_ind (λ (r : Bool × Client D × N). SameKeys c r.1) (get location c.cache) _ _
                (λ _. (refl, refl, refl, λ j. refl))
                (λ info _. close_found-SameKeys net _ filename location streams info))
            (λ _. (refl, refl, refl, λ j. refl)))

  pub close_file-Fewer :
      (net : N) (filename directory : Text)
      → Fewer c (close_file os stub c net filename directory).1
  close_file-Fewer net filename directory =
      let (named, placed, rooted, same) = close_file-SameKeys net filename directory in
      (named, placed, rooted, λ j h. sym (same j) ∙ h)

  -- Nor does it take anything out of the cache.
  pub close_file-has_key :
      (net : N) (filename directory j : Text)
      → has_key j (close_file os stub c net filename directory).1.cache ≡ has_key j c.cache
  close_file-has_key net filename directory j = (close_file-SameKeys net filename directory).3 j
