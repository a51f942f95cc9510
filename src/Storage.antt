-- ===== src/Storage.antt =====
-- storage/path.hpp and .cpp. The file system and the path of the program, which the standard library
-- and Boost give, are an argument; a path is its text.
mod Tests
use boost_server_example.Base.{ℕ, Bool, not, List, [], ◌∷◌, Option, Bytes, replicate, if◌then◌else◌}
use boost_server_example.Base.Result.{Result, ok, ◌>>=◌, or_fault, thrown}
use boost_server_example.Opcode.{c_str}

-- `join` is the operator `/` of paths. `exists` and `file_size` are `none` where they throw. `contents` is what a
-- stream on the path reads, nothing if it cannot be opened.
pub record FileSystem : Type 0 where
  pub program_location : Bytes
  pub parent_path : Bytes → Bytes
  pub is_relative : Bytes → Bool
  pub join : Bytes → Bytes → Bytes
  pub exists : Bytes → Option Bool
  pub file_size : Bytes → Option ℕ
  pub contents : Bytes → Bytes

-- `f.read(result.data(), sz)` on a buffer of `sz` bytes: a shorter stream leaves the rest of it.
pub read_into : Bytes → Bytes → Bytes
read_into [] text = []
read_into (b ∷ buffer) [] = b ∷ buffer
read_into (b ∷ buffer) (c ∷ text) = c ∷ read_into buffer text

abbrev is_empty : Bytes → Bool
is_empty [] = Bool.true
is_empty (c ∷ path) = Bool.false

module _ (fs : FileSystem) where
  open fs use {program_location, parent_path, exists, file_size, contents}

  -- The way through `c_str()` is that of `fs::path`.
  unfoldable pub get_this_binary_path : Bytes
  unfolding c_str
  get_this_binary_path = c_str program_location

  unfoldable pub get_this_binary_directory_path : Bytes
  unfolding c_str
  get_this_binary_directory_path = c_str (parent_path program_location)

  unfoldable pub get_file_contents : Bytes → Result Bytes
  unfolding read_into
  get_file_contents path =
      if is_empty path
      then ok []
      else (or_fault (exists path) thrown >>= λ there.
          if not there
          then ok []
          else (or_fault (file_size path) thrown >>= λ sz.
              ok (read_into (replicate sz b' ') (contents path))))
