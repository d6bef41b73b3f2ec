-- ===== src/Client/Consistent.antt =====
-- The tables of the client stay consistent through its calls
-- (Basic_Operation/client_code/filesystem_client.cpp, client_subscriber.hpp).

-- Every opened file is in the cache and has a mutex.

use distributed_filesystem.Base.{
  Bool, List, Option, arith, false, if_ind, negsuc, none, not, option_ind, pos, refl, some, true, ℕ,
  ℤ, ◌||◌, ◌≡◌,
}
use distributed_filesystem.Client.Files.{find_streams, guarded, has_key}
use distributed_filesystem.Client.Paths.{cache_dir}
use distributed_filesystem.Client.Reading.{
  read_file, read_found, read_sized, seeks, with_read_stream,
}
use distributed_filesystem.Client.State.{Answer, Client, FileInfo, FileStreams, Stream}
use distributed_filesystem.Client.Subscriber.{handle_notification, invalidate}
use distributed_filesystem.Client.Tables.{Covers, restream-Covers, uncached-Covers, updated-Covers}
use distributed_filesystem.Client.Writing.{record_write, with_write_stream, write_file, write_found}
use distributed_filesystem.Dict.{get}
use distributed_filesystem.Members.{contains}
use distributed_filesystem.Os.{Os}
use distributed_filesystem.Text.{Text}
use distributed_filesystem.Wire.{Notification}

pub record IsConsistent {D : Type 0} (c : Client D) : Type 0 where
  pub covered : Covers c.opened_files c.cache c.file_mutexes

abbrev Keeps : {D : Type 0} → Bool × Client D → Type 0
Keeps r = IsConsistent r.1

module _ {D : Type 0} (os : Os D) (c : Client D) (w : IsConsistent c) where
  found_opened :
      (location : Text) (streams : FileStreams)
      → find_streams c location ≡ some streams
      → has_key location c.opened_files ≡ true
  unfolding find_streams has_key
  found_opened location streams e =
      found (contains location c.file_mutexes) (get location c.cache) (get location c.opened_files)
        e
    where
      found :
          (b : Bool) (i : Option FileInfo) (s : Option FileStreams)
          → guarded b i s ≡ some streams
          → elim s [ none ↦ false | some v ↦ true ] ≡ true
      found b none (some v) q = refl
      found b i s q = ground arith

  with_read_stream-IsConsistent :
      (location : Text) (streams : FileStreams) (s : Stream)
      → has_key location c.opened_files ≡ true
      → IsConsistent (with_read_stream os c location streams s)
  unfolding with_read_stream
  with_read_stream-IsConsistent location streams s h = record {
    covered = restream-Covers _ _ _ w.covered location _ h;
  }

  with_write_stream-IsConsistent :
      (d : D) (location : Text) (streams : FileStreams) (s : Stream)
      → has_key location c.opened_files ≡ true
      → IsConsistent (with_write_stream os (record c { disk = d }) location streams s)
  unfolding with_write_stream
  with_write_stream-IsConsistent d location streams s h = record {
    covered = restream-Covers _ _ _ w.covered location _ h;
  }

  record_write-IsConsistent :
      (d : D) (location key : Text)
      → IsConsistent (record_write os (record c { disk = d }) location key)
  unfolding record_write
  record_write-IsConsistent d location key = record {
    covered = updated-Covers _ _ _ w.covered location _;
  }

  read_sized-IsConsistent :
      (location : Text) (streams : FileStreams) (size : ℤ) (position : ℕ)
      → has_key location c.opened_files ≡ true
      → IsConsistent (read_sized os c location streams size position).2
  unfolding read_sized
  read_sized-IsConsistent location streams (negsuc n) position h = w
  read_sized-IsConsistent location streams (pos n) position h =
      with_read_stream-IsConsistent location streams _ h

  read_found-IsConsistent :
      (location : Text) (streams : FileStreams) (size offset : ℤ)
      → has_key location c.opened_files ≡ true
      → IsConsistent (read_found os c location streams size offset).2
  unfolding read_found
  read_found-IsConsistent location streams size offset h =
      option_ind (λ (r : Answer × List ℕ × Client D). IsConsistent r.2)
        (seeks streams.read_stream offset) _ _
        (λ _. with_read_stream-IsConsistent location streams _ h)
        (λ position _. read_sized-IsConsistent location streams size position h)

  pub read_file-IsConsistent :
      (filename directory : Text) (size offset : ℤ)
      → IsConsistent (read_file os c filename directory size offset).2
  unfolding read_file
  read_file-IsConsistent filename directory size offset =
      option_ind (λ (r : Answer × List ℕ × Client D). IsConsistent r.2) (find_streams c _) _ _
        (λ _. w)
        (λ streams e. read_found-IsConsistent _ streams size offset (found_opened _ streams e))

  write_found-IsConsistent :
      (location key : Text) (streams : FileStreams) (content : List ℕ) (position : ℕ)
      → has_key location c.opened_files ≡ true
      → IsConsistent (write_found os c location key streams content position).1
  unfolding write_found
  write_found-IsConsistent location key streams content position h =
      let s = streams.write_stream in
      let written = os.write_at c.disk s.handle position content in
      if_ind Keeps (s.failed || not s.is_open) _ _
        (λ _. with_write_stream-IsConsistent c.disk location streams _ h)
        (λ _.
          if_ind Keeps written.0 _ _ (λ _. record_write-IsConsistent written.1 location key)
            (λ _. with_write_stream-IsConsistent written.1 location streams _ h))

  pub write_file-IsConsistent :
      (filename : Text) (content : List ℕ) (directory : Text) (position : ℕ)
      → IsConsistent (write_file os c filename content directory position).1
  unfolding write_file
  write_file-IsConsistent filename content directory position =
      option_ind Keeps (find_streams c _) _ _ (λ _. w)
        (λ streams e.
          write_found-IsConsistent _ _ streams content position (found_opened _ streams e))

  invalidate-IsConsistent :
      (location path : Text)
      → has_key location c.opened_files ≡ false
      → IsConsistent (invalidate c location path)
  unfolding invalidate
  invalidate-IsConsistent location path h =
      option_ind IsConsistent (get location c.cache) _ _ (λ _. w)
        (λ info _. record { covered = uncached-Covers _ _ _ w.covered location h })

  pub handle_notification-IsConsistent :
      (note : Notification) → IsConsistent (handle_notification c note)
  unfolding handle_notification
  handle_notification-IsConsistent note =
      if_ind IsConsistent (has_key (cache_dir c note.directory) c.opened_files) _ _ (λ _. w)
        (λ e. invalidate-IsConsistent _ _ e)
