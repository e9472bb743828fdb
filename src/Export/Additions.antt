-- ===== src/Export/Additions.antt =====
-- What calls of the Add methods leave in an export.
use prompt_sdk.Prelude.{
  ◌+◌, ◌≡◌, refl, ◌∙◌, sym, inl, inr, Bool, true, false, none, some, List, [], ◌∷◌, ◌++◌, map, Text,
  Result, ok, length, length-append, Option-cases, arith,
}
use mathlib.Core.List.{append-nil, append_assoc, map-append}
use prompt_sdk.Export.Paths.{sanitize_zip_path}
use prompt_sdk.Export.{
  ZipEntry, item, ExportError, Export, Collected, failed, nil_value, value, Panic, write_collected,
  add, add_blob, add_file,
}
use prompt_sdk.Export.Calls.{
  Method, json, blob, file, Addition, call, add_all, Item, item_of, expected, zipped, listed,
}

-- `e'` comes from `e` by Add calls that owe the items `is`, if none of them failed.
pub record Added (e e' : Export) (is : List Item) : Type 0 where
  pub open_ : e'.zip_open ≡ true
  pub unfinished : e'.finished ≡ false
  pub before : e'.error ≡ none → e.error ≡ none
  pub archived : e'.error ≡ none → e'.archive ≡ e.archive ++ map zipped is
  pub indexed : e'.error ≡ none → e'.entries ≡ e.entries ++ map listed is
  pub counted : e'.error ≡ none → e'.item_count ≡ e.item_count + length is

call_lem : (a : Addition) (e : Export) → call a e ≡ add a.name a.path a.collected a.creates e
unfolding call add_blob add_file
call_lem a e = same a.method
  where
    same :
        (m : Method)
        → elim m as (λ _. Result Panic Export) [
          | json ↦ add a.name a.path a.collected a.creates e
          | blob ↦ add_blob a.name a.path a.collected a.creates e
          | file ↦ add_file a.name a.path a.collected a.creates e
        ]
          ≡ add a.name a.path a.collected a.creates e
    same json = refl
    same blob = refl
    same file = refl

module _ (e : Export) (zip_open : e.zip_open ≡ true) (unfinished : e.finished ≡ false) where
  kept-Added : Added e e []
  kept-Added = record {
    open_ = zip_open;
    unfinished = unfinished;
    before = λ h. h;
    archived = λ h. sym (append-nil e.archive);
    indexed = λ h. sym (append-nil e.entries);
    counted = λ h. omega arith;
  }

  broken-Added :
      (failure : ExportError) (zs : List ZipEntry) (is : List Item)
      → Added e (record e { error = some failure; archive = zs }) is
  broken-Added failure zs is = record {
    open_ = zip_open;
    unfinished = unfinished;
    before = λ h. absurd (ground arith);
    archived = λ h. absurd (ground arith);
    indexed = λ h. absurd (ground arith);
    counted = λ h. absurd (ground arith);
  }

  stuck-Added : (failure : ExportError) → e.error ≡ some failure → (is : List Item) → Added e e is
  stuck-Added failure f is = record {
    open_ = zip_open;
    unfinished = unfinished;
    before = λ h. h;
    archived = λ h. absurd (ground arith);
    indexed = λ h. absurd (ground arith);
    counted = λ h. absurd (ground arith);
  }

  write-Added :
      (name path : Text) (c : Collected) (creates : Bool)
      → e.error ≡ none
      → (e' : Export) × (write_collected name path c creates e ≡ ok e')
        × Added e e' (item_of name (some path) c)
  unfolding write_collected
  write-Added name path failed creates clear =
      (_, refl, broken-Added ExportError.collecting e.archive [])
  write-Added name path nil_value creates clear = (e, refl, kept-Added)
  write-Added name path (value bytes whole) false clear = (
    record e { error = some ExportError.creating },
    ground arith,
    broken-Added ExportError.creating e.archive _,
  )
  write-Added name path (value bytes false) true clear = (
    record e { error = some ExportError.writing; archive = e.archive ++ item path bytes ∷ [] },
    ground arith,
    broken-Added ExportError.writing (e.archive ++ item path bytes ∷ []) _,
  )
  write-Added name path (value bytes true) true clear = (
    record e {
      archive = e.archive ++ item path bytes ∷ [];
      item_count = e.item_count + 1;
      entries = e.entries ++ record { name = name; path = path } ∷ [];
    },
    ground arith,
    record {
      open_ = zip_open;
      unfinished = unfinished;
      before = λ h. clear;
      archived = λ h. refl;
      indexed = λ h. refl;
      counted = λ h. refl;
    },
  )

  add-Added :
      (a : Addition)
      → (e' : Export) × (add a.name a.path a.collected a.creates e ≡ ok e')
        × Added e e' (item_of a.name (sanitize_zip_path a.path) a.collected)
  unfolding add
  add-Added a = elim (Option-cases e.error) [
    | inr (failure, f) ↦ (e, ground arith, stuck-Added failure f _)
    | inl clear ↦ elim (Option-cases (sanitize_zip_path a.path)) [
      | inl bad ↦ (
        record e { error = some ExportError.invalid_path },
        ground arith,
        broken-Added ExportError.invalid_path e.archive _,
      )
      | inr (path, good) ↦
          let (e', same, added) = write-Added a.name path a.collected a.creates clear in
          (e', ground arith, rw good added)
    ]
  ]

-- The steps of two runs together.
Added-append :
    (d e f : Export) (is js : List Item) → Added d e is → Added e f js → Added d f (is ++ js)
Added-append d e f is js p q = record {
  open_ = q.open_;
  unfinished = q.unfinished;
  before = λ h. p.before (q.before h);
  archived = λ h.
      q.archived h
      ∙ rw (p.archived (q.before h), map-append)
          (append_assoc d.archive (map zipped is) (map zipped js));
  indexed = λ h.
      q.indexed h
      ∙ rw (p.indexed (q.before h), map-append)
          (append_assoc d.entries (map listed is) (map listed js));
  counted = λ h. omega (arith, q.counted h, p.counted (q.before h), length-append is js);
}

pub add_all-Added :
    (calls : List Addition) (e : Export)
    → e.zip_open ≡ true
    → e.finished ≡ false
    → (e' : Export) × (add_all calls e ≡ ok e') × Added e e' (expected calls)
add_all-Added [] e zip_open unfinished = (e, refl, kept-Added e zip_open unfinished)
add_all-Added (a ∷ calls) e zip_open unfinished =
    let (d, first, p) = add-Added e zip_open unfinished a in
    let (f, rest, q) = add_all-Added calls d p.open_ p.unfinished in
    (f, rw (call_lem a e) (rw first rest), Added-append e d f _ (expected calls) p q)
