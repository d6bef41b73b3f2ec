-- ===== src/Fuse/Names.antt =====
-- The directory and the name that the handlers of FUSE/FUSE_integration.cpp take from a path.

use distributed_filesystem.Base.{[], if◌then◌else◌, ◌||◌}
use distributed_filesystem.Text.{Text, file_name, is_empty, lit, parent_path, text_eq}

-- `if (dir.empty() || dir == "/") dir = "";`
unfoldable pub top_as_empty : Text → Text
unfolding text_eq
top_as_empty dir = if is_empty dir || text_eq dir (lit "/") then [] else dir

-- `fs_path.parent_path().string()`, and the same without the root.
unfoldable pub directory_of : Text → Text
unfolding parent_path
directory_of path = parent_path path

unfoldable pub folder_of : Text → Text
unfolding directory_of top_as_empty
folder_of path = top_as_empty (directory_of path)

-- `fs_path.filename().string()`
unfoldable pub name_of : Text → Text
unfolding file_name
name_of path = file_name path
