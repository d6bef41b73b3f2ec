-- ===== src/Client/Placed.antt =====
-- Where the calls of Basic_Operation/client_code/filesystem_client.cpp have a file open, and what they
-- do with a file that is not open.

use distributed_filesystem.Base.{
  Bool, List, Option, ap, arith, false, if_ind, none, option_ind, refl, some, true, ℕ, ℤ, ◌||◌, ◌∙◌,
  ◌≡◌,
}
use distributed_filesystem.Client.Closing.{close_file}
use distributed_filesystem.Client.Creating.{
  create_file, make_local, open_created, save_new_attributes,
}
use distributed_filesystem.Client.Files.{find_streams, guarded, has_key, mark_opened, open_streams}
use distributed_filesystem.Client.Opening.{
  Try, discard, finish_download, gives_up, open_cached, open_downloaded, open_file, open_missing,
  tried,
}
use distributed_filesystem.Client.Paths.{
  cache_dir, file_location, open_location, resolve_server_path,
}
use distributed_filesystem.Client.Reading.{read_file}
use distributed_filesystem.Client.Received.{removal_answer_false}
use distributed_filesystem.Client.State.{Answer, Client, FileInfo, FileStreams, answers}
use distributed_filesystem.Client.Stub.{Stub}
use distributed_filesystem.Client.Tables.{has_key-some, put_key}
use distributed_filesystem.Client.Writing.{write_file}
use distributed_filesystem.Dict.{get}
use distributed_filesystem.Members.{contains}
use distributed_filesystem.Os.{Os, StatResult, failed, found, no_entry}
use distributed_filesystem.Text.{Text}
use distributed_filesystem.Wire.{is_ok}

-- An answer of true, and the file is open.
abbrev Opens : {D N : Type 0} → Text → Answer × Client D × N → Type 0
Opens location r = r.0 ≡ answers true → has_key location r.1.opened_files ≡ true

module _ {D N : Type 0} (os : Os D) (stub : Stub N) (location : Text) where
  marked :
      (c : Client D) (net : N) (streams : FileStreams)
      → Opens location (answers true, mark_opened c location streams, net)
  unfolding mark_opened
  marked c net streams e = put_key location streams c.opened_files

  finish_download-Opens : (t : Try D N) → Opens location (finish_download os stub t location)
  unfolding finish_download open_downloaded discard
  finish_download-Opens (gives_up c net) = λ q. absurd (ground arith)
  finish_download-Opens (tried status c net) =
      if_ind (Opens location) (is_ok status) _ _
        (λ _.
          option_ind (Opens location) (open_streams os c.disk location) _ _
            (λ _ q. absurd (ground arith)) (λ streams _. marked c net streams))
        (λ _ q. absurd (removal_answer_false (os.remove c.disk location).0 q))

  open_cached-Opens : (c : Client D) (net : N) → Opens location (open_cached os stub c net location)
  unfolding open_cached
  open_cached-Opens c net =
      option_ind (Opens location) (get location c.opened_files) _ _
        (λ _.
          option_ind (Opens location) (open_streams os c.disk location) _ _
            (λ _ q. absurd (ground arith)) (λ streams _. marked c net streams))
        (λ streams e _. has_key-some location c.opened_files streams e)

guarded-none : (b : Bool) (i : Option FileInfo) → guarded b i none ≡ none
guarded-none b none = refl
guarded-none true (some info) = refl
guarded-none false (some info) = refl

find_streams-none :
    {D : Type 0} (c : Client D) (location : Text)
    → get location c.opened_files ≡ none
    → find_streams c location ≡ none
unfolding find_streams
find_streams-none c location e =
    ap (guarded (contains location c.file_mutexes) (get location c.cache)) e
    ∙ guarded-none (contains location c.file_mutexes) (get location c.cache)

module _ {D : Type 0} (os : Os D) (c : Client D) (filename path : Text) where
  abbrev file_place : Text
  file_place = file_location c (resolve_server_path c path) filename

  module _ {N : Type 0} (stub : Stub N) (net : N) where
    pub open_file_opens :
        (open_file os stub c net filename path).0 ≡ answers true
        → has_key
            (open_location c (resolve_server_path c path) filename)
            (open_file os stub c net filename path).1.opened_files
          ≡ true
    unfolding open_file open_missing
    open_file_opens =
        let resolved = resolve_server_path c path in
        let location = open_location c resolved filename in
        let made = os.create_directories c.disk (cache_dir c resolved) in
        option_ind (Opens location) (get location c.cache) _ _
          (λ _.
            if_ind (Opens location) made.0 _ _ (λ _. finish_download-Opens os stub location _)
              (λ _ q. absurd (ground arith)))
          (λ info _. open_cached-Opens os stub location c net)

  abbrev Creates : Bool × Client D → Type 0
  Creates r = r.0 ≡ true → has_key file_place r.1.opened_files ≡ true

  saved-Creates :
      (c' : Client D) (streams : FileStreams) (key : Text) (found_stat : StatResult)
      → Creates (save_new_attributes os (mark_opened c' file_place streams) key found_stat)
  unfolding save_new_attributes mark_opened
  saved-Creates c' streams key (found s) q = put_key file_place streams c'.opened_files
  saved-Creates c' streams key no_entry q = put_key file_place streams c'.opened_files
  saved-Creates c' streams key failed q = put_key file_place streams c'.opened_files

  open_created-Creates : (c' : Client D) (key : Text) → Creates (open_created os c' file_place key)
  unfolding open_created
  open_created-Creates c' key =
      option_ind Creates (open_streams os c'.disk file_place) _ _ (λ _ q. absurd (ground arith))
        (λ streams _. saved-Creates c' streams key (os.stat c'.disk file_place))

  pub create_file_opens : Creates (create_file os c filename path)
  unfolding create_file make_local
  create_file_opens =
      let made = os.create_directories c.disk (cache_dir c (resolve_server_path c path)) in
      if_ind Creates (has_key file_place c.cache || has_key file_place c.opened_files) _ _
        (λ _ q. absurd (ground arith))
        (λ _.
          if_ind Creates made.0 _ _
            (λ _.
              option_ind Creates (os.open_trunc made.1 file_place).0 _ _
                (λ _ q. absurd (ground arith)) (λ h _. open_created-Creates _ _))
            (λ _ q. absurd (ground arith)))

  pub read_file_absent :
      (size offset : ℤ)
      → get file_place c.opened_files ≡ none
      → (read_file os c filename path size offset).0 ≡ answers false
  unfolding read_file
  read_file_absent size offset e = rw (read_file, find_streams-none c file_place e) refl

  pub write_file_absent :
      (content : List ℕ) (position : ℕ)
      → get file_place c.opened_files ≡ none
      → (write_file os c filename content path position).0 ≡ false
  unfolding write_file
  write_file_absent content position e = rw (write_file, find_streams-none c file_place e) refl

  pub close_file_absent :
      {N : Type 0} (stub : Stub N) (net : N)
      → get file_place c.opened_files ≡ none
      → close_file os stub c net filename path ≡ (false, c, net)
  unfolding close_file
  close_file_absent stub net e = rw (close_file, e) refl
