-- ===== src/Export/Calls.antt =====
-- Sequences of calls of the Add methods of an export, and the items that they owe it.
use prompt_sdk.Prelude.{Bool, Option, some, List, [], ◌∷◌, ◌++◌, Text, Result, ok, ◌>>=◌}
use prompt_sdk.Export.Paths.{sanitize_zip_path}
use prompt_sdk.Export.{
  ExportEntry, ZipEntry, item, Export, Collected, value, Panic, add, add_blob, add_file,
}

-- A call of AddJSON, AddBlob or AddFile: its arguments, and how the zip writer takes it.
pub data Method : Type 0 where
  json blob file : Method

pub record Addition : Type 0 where
  pub method : Method
  pub name : Text
  pub path : Text
  pub collected : Collected
  pub creates : Bool

unfoldable pub call : Addition → Export → Result Panic Export
call a e = elim a.method [
  | json ↦ add a.name a.path a.collected a.creates e
  | blob ↦ add_blob a.name a.path a.collected a.creates e
  | file ↦ add_file a.name a.path a.collected a.creates e
]

abbrev pub add_all : List Addition → Export → Result Panic Export
add_all [] e = ok e
add_all (a ∷ calls) e = call a e >>= add_all calls

-- What the archive is to hold of a call: nothing unless its callback gave a value.
pub record Item : Type 0 where
  pub name : Text
  pub path : Text
  pub bytes : Text

abbrev pub item_of : Text → Option Text → Collected → List Item
item_of name (some path) (value bytes whole) =
    record { name = name; path = path; bytes = bytes } ∷ []
item_of name _ _ = []

abbrev pub expected : List Addition → List Item
expected [] = []
expected (a ∷ calls) = item_of a.name (sanitize_zip_path a.path) a.collected ++ expected calls

abbrev pub zipped : Item → ZipEntry
zipped i = item i.path i.bytes

abbrev pub listed : Item → ExportEntry
listed i = record { name = i.name; path = i.path }
