-- ===== src/Examples/Peeks.antt =====
-- A client that asks for the attributes of a file that it does not open.

use distributed_filesystem.Base.{[], refl, some, ◌∷◌, ◌≡◌}
use distributed_filesystem.Client.Connecting.{connect}
use distributed_filesystem.Client.Metadata.{attributes_of, get_attributes}
use distributed_filesystem.Client.Outdated.{get_attributes-run_subscriber}
use distributed_filesystem.Client.State.{FileAttributes}
use distributed_filesystem.Client.Subscriber.{run_subscriber}
use distributed_filesystem.Dict.{get}
use distributed_filesystem.Examples.Memory.{memory}
use distributed_filesystem.Examples.Sessions.{changed_note, file, one_file, start, top}
use distributed_filesystem.Examples.Uploads.{alice, upload_by}
use distributed_filesystem.Wire.{no_attributes}

abbrev seen : FileAttributes
seen = attributes_of start.0 no_attributes

get_attributes-run_subscriber_example :
    let c' =
      run_subscriber
        (get_attributes memory one_file start.0 [] file top).1
        (changed_note ∷ changed_note ∷ []) in
    get_attributes memory one_file c' (upload_by alice (1 ∷ []) ∷ []) file top
    ≡ (some seen, c', upload_by alice (1 ∷ []) ∷ [])
unfolding connect memory get_attributes attributes_of get
get_attributes-run_subscriber_example =
    get_attributes-run_subscriber memory one_file start.0 [] file top seen
      (changed_note ∷ changed_note ∷ []) (upload_by alice (1 ∷ []) ∷ []) refl refl
