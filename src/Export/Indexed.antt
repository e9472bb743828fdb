-- ===== src/Export/Indexed.antt =====
-- What an upload of an export sends.
use prompt_sdk.Prelude.{
  suc, ◌+◌, ◌<◌, ◌≡◌, ◌≢◌, refl, ◌∙◌, ap, inl, inr, true, false, Option, none, some, List, [], ◌∷◌,
  ◌++◌, map, Text, ok, err, ltb, length, All, All-append, Result-cases, arith, if◌then◌else◌,
}
use mathlib.Core.List.{append-nil}
use prompt_sdk.Export.Paths.{sanitize_zip_path}
use prompt_sdk.Export.Safe.{IsBelow, sanitize_zip_path-IsBelow}
use prompt_sdk.Export.{
  ZipEntry, index, Export, new_export, Collected, failed, nil_value, value, Panic, nil_writer,
  Upload, Uploaded, upload_to,
}
use prompt_sdk.Export.Calls.{Addition, add_all, Item, item_of, expected, zipped, listed}
use prompt_sdk.Export.Additions.{Added, add_all-Added}

-- What an upload is to send of an export with some items.
abbrev pub contents : List Item → List ZipEntry
contents [] = []
contents (i ∷ is) = map zipped (i ∷ is) ++ index (map listed (i ∷ is)) ∷ []

module _ (url : Text) (up : Upload) (e : Export) (zip_open : e.zip_open ≡ true)
    (unfinished : e.finished ≡ false) where
  upload_to-ne-err : (panic : Panic) → upload_to url up e ≢ err panic
  unfolding upload_to
  upload_to-ne-err panic h = ground arith

  upload_to-success :
      (u : Uploaded)
      → upload_to url up e ≡ ok u
      → u.failure ≡ none
      → (e.error ≡ none)
        × (u.sent ≡ some (e.archive ++ (if ltb 0 e.item_count then index e.entries ∷ [] else [])))
  unfolding upload_to
  upload_to-success u h f = ground (arith, append-nil e.archive)

contents_lem :
    (is : List Item) (e : Export)
    → Added new_export e is
    → e.error ≡ none
    → e.archive ++ (if ltb 0 e.item_count then index e.entries ∷ [] else []) ≡ contents is
unfolding new_export
contents_lem [] e a clear = rw (a.archived clear, a.indexed clear, a.counted clear)
contents_lem (i ∷ is) e a clear =
    let positive : ltb 0 (0 + suc (length is)) ≡ true = ground arith in
    rw (a.archived clear, a.indexed clear, a.counted clear) (rw positive)

item_of-IsBelow :
    (name path : Text) (c : Collected) (cleaned : Option Text)
    → sanitize_zip_path path ≡ cleaned
    → All (λ i. IsBelow i.path) (item_of name cleaned c)
item_of-IsBelow name path (value bytes whole) (some q) h = (sanitize_zip_path-IsBelow path q h, tt)
item_of-IsBelow name path (value bytes whole) none h = tt
item_of-IsBelow name path failed none h = tt
item_of-IsBelow name path failed (some q) h = tt
item_of-IsBelow name path nil_value none h = tt
item_of-IsBelow name path nil_value (some q) h = tt

expected-IsBelow : (calls : List Addition) → All (λ i. IsBelow i.path) (expected calls)
expected-IsBelow [] = tt
expected-IsBelow (a ∷ calls) =
    All-append (λ i. IsBelow i.path) (item_of a.name (sanitize_zip_path a.path) a.collected)
      (expected calls) (item_of-IsBelow a.name a.path a.collected (sanitize_zip_path a.path) refl)
      (expected-IsBelow calls)

-- A new export, after any calls of its Add methods, and an upload of it, whatever fails: nothing
-- panics; and if the upload succeeds, no call failed and what was sent is exactly the items whose
-- callbacks gave a value, in the order of the calls, under their cleaned paths, with an index of
-- their names and paths behind them unless there are none. Each path leads below the directory of
-- extraction.
pub upload_to-contents :
    (calls : List Addition) (url : Text) (up : Upload)
    → (e : Export) × (u : Uploaded) × (add_all calls new_export ≡ ok e)
      × (upload_to url up e ≡ ok u)
      × (u.failure ≡ none
          → (e.error ≡ none)
            × (u.sent ≡ some (contents (expected calls)))
            × All (λ i. IsBelow i.path) (expected calls))
upload_to-contents calls url up =
    let (e, same, a) =
      add_all-Added calls new_export (unfold new_export in refl) (unfold new_export in refl) in
    elim (Result-cases (upload_to url up e)) [
      | inr (panic, h) ↦ absurd (upload_to-ne-err url up e a.open_ a.unfinished panic h)
      | inl (u, h) ↦ (
        e,
        u,
        same,
        h,
        λ f.
            let (clear, sent) = upload_to-success url up e a.open_ a.unfinished u h f in
            (
              clear,
              sent ∙ ap (λ zs. some zs) (contents_lem (expected calls) e a clear),
              expected-IsBelow calls,
            ),
      )
    ]

-- An export with items, none of whose calls failed, whose upload could finish the archive and
-- failed after that: a second call of UploadTo panics, since the first has cleared the writer.
pub upload_to-retry :
    (url second : Text) (up again : Upload) (e : Export) (u : Uploaded)
    → e.finished ≡ false
    → e.error ≡ none
    → 0 < e.item_count
    → up.writes_contents ≡ true
    → up.closes ≡ true
    → upload_to url up e ≡ ok u
    → u.failure ≢ none
    → upload_to second again u.export ≡ err nil_writer
unfolding upload_to
upload_to-retry url second up again e u unfinished clear filled writes closes h gave_up =
    ground arith
