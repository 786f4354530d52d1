-- ===== src/Tests/Names.antt =====
-- Paths and names.
use hitsz_ext.Base.{◌≡◌, none, some, [], ◌∷◌, false, arith}
use hitsz_ext.Dir.{strcmp, strncpy}
use hitsz_ext.PathName.{FilePath, name_buffer}
use hitsz_ext.PathName.Elements.{elements, names, name_buffers, names-elements}
use hitsz_ext.PathName.Names.{NoZero, strcmp-stored, strcmp-stored_long}

abbrev path0 : FilePath
path0 = b'/' ∷ b'a' ∷ b'b' ∷ b'/' ∷ b'/' ∷ b'c' ∷ []

abbrev short_name : FilePath
short_name = b'a' ∷ b'b' ∷ []

abbrev other_name : FilePath
other_name = b'a' ∷ []

abbrev long_name : FilePath
long_name =
    b'a' ∷ b'a' ∷ b'a' ∷ b'a' ∷ b'a' ∷ b'a' ∷ b'a' ∷ b'a' ∷ b'a' ∷ b'a' ∷ b'a' ∷ b'a' ∷ b'a' ∷ b'a'
    ∷ []

names-elements_example : names 7 path0 ≡ name_buffers (elements path0)
names-elements_example = names-elements 7 path0 (omega arith)

short_name-NoZero : NoZero short_name
short_name-NoZero = ground arith

other_name-NoZero : NoZero other_name
other_name-NoZero = ground arith

long_name-NoZero : NoZero long_name
long_name-NoZero = ground arith

strcmp-stored_example :
    strcmp (name_buffer short_name) (strncpy 14 (name_buffer other_name)) ≡ some false
strcmp-stored_example =
    strcmp-stored short_name other_name short_name-NoZero other_name-NoZero (omega arith)
      (omega arith)

strcmp-stored_long_example :
    strcmp (name_buffer long_name) (strncpy 14 (name_buffer long_name)) ≡ none
strcmp-stored_long_example = strcmp-stored_long long_name long_name-NoZero (omega arith)
