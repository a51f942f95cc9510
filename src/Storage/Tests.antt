-- ===== src/Storage/Tests.antt =====
-- Runs of storage/path.cpp.
use boost_server_example.Base.{◌≡◌, refl, true, [], ◌++◌, none, some, length, ◌==◌}
use boost_server_example.Base.Result.{ok, err, thrown}
use boost_server_example.Base.Text.{codes}
use boost_server_example.Storage.{FileSystem, get_file_contents, get_this_binary_directory_path}

-- One file, "t", which is shorter than its size says.
abbrev one_file : FileSystem
one_file = record {
  program_location = codes "/d/p";
  parent_path = λ path. codes "/d";
  is_relative = λ path. true;
  join = λ a b. a ++ codes "/" ++ b;
  exists = λ path. some (length path == 1);
  file_size = λ path. some 5;
  contents = λ path. codes "a,b";
}

filled_up : get_file_contents one_file (codes "t") ≡ ok (codes "a,b  ")
unfolding get_file_contents
filled_up = refl

directory : get_this_binary_directory_path one_file ≡ codes "/d"
unfolding get_this_binary_directory_path
directory = refl

-- What `exists` throws is not caught.
unreadable : get_file_contents (record one_file { exists = λ path. none }) (codes "t") ≡ err thrown
unfolding get_file_contents
unreadable = refl

absent : get_file_contents one_file (codes "no") ≡ ok []
unfolding get_file_contents
absent = refl
