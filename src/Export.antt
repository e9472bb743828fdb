-- ===== src/Export.antt =====
-- utils/export.go: the archive of a data export, its Add methods, the upload and the clean-up.
-- A method call on a nil zip writer panics; the temporary file can be used after that.
pub mod Paths
pub mod Safe
pub mod Calls
pub mod Additions
pub mod Indexed
use prompt_sdk.Prelude.{
  ℕ, ◌+◌, ◌/◌, Bool, true, false, not, ◌&&◌, ◌||◌, Option, none, some, List, [], ◌∷◌, ◌++◌, Text,
  codes, Result, ok, err, ◌==◌, ltb, if◌then◌else◌,
}
use Paths.{sanitize_zip_path}

pub record ExportEntry : Type 0 where
  pub name : Text
  pub path : Text

-- What the zip writer was given: an item with its bytes (all that were written, if the writing
-- failed), or the index contents.json, whose time is left out.
pub data ZipEntry : Type 0 where
  item : Text → Text → ZipEntry
  index : List ExportEntry → ZipEntry

pub data ExportError : Type 0 where
  export_finished : ExportError  -- ErrExportFinished
  invalid_path collecting creating writing : ExportError  -- of an Add method
  contents_failed closing_failed seeking_failed stat_failed request_failed : ExportError
  upload_failed : ExportError
  bad_status : ℕ → ExportError

-- `zip_open` and `file_open` are false for a nil pointer.
pub record Export : Type 0 where
  pub file_open : Bool
  pub zip_open : Bool
  pub error : Option ExportError
  pub finished : Bool
  pub item_count : ℕ
  pub entries : List ExportEntry
  pub archive : List ZipEntry

-- `NewExport`, where the temporary file can be made
unfoldable pub new_export : Export
new_export = record {
  file_open = true;
  zip_open = true;
  error = none;
  finished = false;
  item_count = 0;
  entries = [];
  archive = [];
}

unfoldable pub is_empty_export : Export → Bool
is_empty_export e = e.item_count == 0

-- What the callback of an Add method returns: an error, a nil value (`isNilValue`), or a value
-- with its bytes and whether all of them can be encoded or read, and written.
pub data Collected : Type 0 where
  failed : Collected
  nil_value : Collected
  value : Text → Bool → Collected

-- The nil pointer dereference
pub data Panic : Type 0 where
  nil_writer : Panic

-- `zipWriter.Create` and the writing of an item; `creates` is its success, up to the disk.
unfoldable pub write_item : Text → Text → Text → Bool → Bool → Export → Result Panic Export
write_item name path bytes whole creates e =
    if not e.zip_open
    then err nil_writer
    else if not creates
    then ok (record e { error = some ExportError.creating })
    else if not whole
    then ok
        (record e { error = some ExportError.writing; archive = e.archive ++ item path bytes ∷ [] })
    else ok (record e {
      archive = e.archive ++ item path bytes ∷ [];
      item_count = e.item_count + 1;
      entries = e.entries ++ record { name = name; path = path } ∷ [];
    })

unfoldable pub write_collected : Text → Text → Collected → Bool → Export → Result Panic Export
unfolding write_item
write_collected name path failed creates e = ok (record e { error = some ExportError.collecting })
write_collected name path nil_value creates e = ok e
write_collected name path (value bytes whole) creates e = write_item name path bytes whole creates e

unfoldable pub has_error : Export → Bool
has_error e = elim e.error [ none ↦ false | some _ ↦ true ]

-- AddJSON. The value's bytes are its encoding, which may break off.
unfoldable pub add : Text → Text → Collected → Bool → Export → Result Panic Export
unfolding write_collected has_error
add name path collected creates e =
    if has_error e
    then ok e
    else if e.finished
    then ok (record e { error = some ExportError.export_finished })
    else elim (sanitize_zip_path path) [
      | none ↦ ok (record e { error = some ExportError.invalid_path })
      | some clean_path ↦ write_collected name clean_path collected creates e
    ]

-- AddBlob and AddFile take the same steps: the bytes are the callback's own, or those of its
-- reader, which may break off. Closing the reader leaves the archive as it is.
unfoldable pub add_blob : Text → Text → Collected → Bool → Export → Result Panic Export
unfolding add
add_blob name path collected creates e = add name path collected creates e

unfoldable pub add_file : Text → Text → Collected → Bool → Export → Result Panic Export
unfolding add
add_file name path collected creates e = add name path collected creates e

-- How the steps of an upload go: `response` is the status of the answer, if there is one.
pub record Upload : Type 0 where
  pub writes_contents : Bool
  pub closes : Bool
  pub seeks : Bool
  pub stats : Bool
  pub makes_request : Bool
  pub response : Option ℕ

-- What UploadTo returns, with what it sent and the URL of the request that carried it. The body
-- is a file, which the HTTP client cannot read again, so no redirect carries it on.
pub record Uploaded : Type 0 where
  pub export : Export
  pub failure : Option ExportError
  pub sent : Option (List ZipEntry)
  pub sent_to : Option Text

abbrev pub stopped : Export → ExportError → Result Panic Uploaded
stopped e failure = ok (record { export = e; failure = some failure; sent = none; sent_to = none })

unfoldable pub write_contents : Upload → Export → Result Panic (Option Export)
write_contents up e =
    if not e.zip_open
    then err nil_writer
    else if up.writes_contents
    then ok (some (record e { archive = e.archive ++ index e.entries ∷ [] }))
    else ok none

-- the request itself, with the file; a nil file cannot be sought
unfoldable pub send : Text → Upload → Export → Result Panic Uploaded
send presigned_url up e =
    if not (up.seeks && e.file_open)
    then stopped e ExportError.seeking_failed
    else if not up.stats
    then stopped e ExportError.stat_failed
    else if not up.makes_request
    then stopped e ExportError.request_failed
    else elim up.response [
      | none ↦ ok (record {
        export = e;
        failure = some ExportError.upload_failed;
        sent = some e.archive;
        sent_to = some presigned_url;
      })
      | some status ↦
          if not (status / 100 == 2)
          then ok (record {
            export = e;
            failure = some (ExportError.bad_status status);
            sent = some e.archive;
            sent_to = some presigned_url;
          })
          else ok (record {
            export = record e { finished = true };
            failure = none;
            sent = some e.archive;
            sent_to = some presigned_url;
          })
    ]

unfoldable pub close_and_send : Text → Upload → Export → Result Panic Uploaded
unfolding send
close_and_send presigned_url up e =
    if e.zip_open && not up.closes
    then stopped e ExportError.closing_failed
    else send presigned_url up (record e { zip_open = false })

-- `UploadTo`
unfoldable pub upload_to : Text → Upload → Export → Result Panic Uploaded
unfolding write_contents close_and_send has_error
upload_to presigned_url up e =
    if e.finished then stopped e ExportError.export_finished else elim e.error [
      | some failure ↦ stopped e failure
      | none ↦
          if ltb 0 e.item_count
          then elim (write_contents up e) [
            | err panic ↦ err panic
            | ok none ↦ stopped e ExportError.contents_failed
            | ok (some e') ↦ close_and_send presigned_url up e'
          ]
          else close_and_send presigned_url up e
    ]

-- `Close`
unfoldable pub close : Export → Export
close e = record e { zip_open = false; file_open = false }
