-- ===== src/Registry/Disk.antt =====
-- The registry's file (`readRegistry` and `writeRegistry` in wiki/registry/store.ts), on the values
-- that `JSON.parse` gives.
pub mod Reach
use codealmanac.Prelude.{
  Bool, true, false, Option, none, some, List, [], ◌∷◌, map, Text, if◌then◌else◌, is_empty, or_else,
}
use codealmanac.Registry.{RegistryEntry}

-- The fields that are strings.
pub record RawFields : Type 0 where
  pub name : Option Text
  pub description : Option Text
  pub path : Option Text
  pub registered_at : Option Text

pub data RawEntry : Type 0 where
  no_object : RawEntry
  fields : RawFields → RawEntry

-- `blank` is a missing file or an empty one.
pub data RegistryFile : Type 0 where
  blank not_json no_array : RegistryFile
  entries : List RawEntry → RegistryFile

pub data RegistryError : Type 0 where
  invalid_json must_be_array entry_no_object missing_name missing_path : RegistryError

pub data ReadResult (A : Type 0) : Type 0 where
  ok : A → ReadResult A
  err : RegistryError → ReadResult A

abbrev pub text_or_empty : Option Text → Text
text_or_empty text = or_else text []

unfoldable pub read_entry : RawEntry → ReadResult RegistryEntry
read_entry no_object = err entry_no_object
read_entry (fields f) =
    if is_empty (text_or_empty f.name)
    then err missing_name
    else if is_empty (text_or_empty f.path)
    then err missing_path
    else ok (record {
      name = text_or_empty f.name;
      description = text_or_empty f.description;
      path = text_or_empty f.path;
      registered_at = text_or_empty f.registered_at;
    })

abbrev pub cons_read :
    ReadResult RegistryEntry → ReadResult (List RegistryEntry) → ReadResult (List RegistryEntry)
cons_read (err e) rest = err e
cons_read (ok entry) (err e) = err e
cons_read (ok entry) (ok rest) = ok (entry ∷ rest)

unfoldable pub read_entries : List RawEntry → ReadResult (List RegistryEntry)
unfolding read_entry
read_entries [] = ok []
read_entries (raw ∷ rest) = cons_read (read_entry raw) (read_entries rest)

unfoldable pub read_registry : RegistryFile → ReadResult (List RegistryEntry)
unfolding read_entries
read_registry blank = ok []
read_registry not_json = err invalid_json
read_registry no_array = err must_be_array
read_registry (entries raw) = read_entries raw

abbrev pub raw_entry : RegistryEntry → RawEntry
raw_entry e = fields (record {
  name = some e.name;
  description = some e.description;
  path = some e.path;
  registered_at = some e.registered_at;
})

unfoldable pub write_registry : List RegistryEntry → RegistryFile
write_registry list = entries (map raw_entry list)
