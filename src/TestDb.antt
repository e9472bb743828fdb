-- ===== src/TestDb.antt =====
-- testutils/db_setup.go: the test database, from a container, the up migrations in the order of
-- their versions, and seed files. The container, the database and the directory are parameters.
pub mod Order
pub mod Versions
pub mod Unique
pub mod Permuted
pub mod Balance
use prompt_sdk.Prelude.{
  ℕ, zero, suc, ◌+◌, ◌-◌, ◌*◌, ◌^◌, Bool, true, false, not, ◌&&◌, Option, none, some, List, [], ◌∷◌,
  ◌++◌, map, reverse, Text, codes, is_empty, Result, ok, err, ltb, leb, ◌==◌, if◌then◌else◌,
}

-- `filepath.Base`: the last element, without trailing slashes
unfoldable pub base_from : Text → Text → Text
base_from cur [] = reverse cur
base_from cur (c ∷ s) = elim (c == b'/') [ true ↦ base_from [] s | false ↦ base_from (c ∷ cur) s ]

abbrev pub trim_slashes : Text → Text
trim_slashes [] = []
trim_slashes (c ∷ s) = if c == b'/' then trim_slashes s else c ∷ s

unfoldable pub base_name : Text → Text
unfolding base_from
base_name [] = codes "."
base_name (c ∷ s) =
    let name = base_from [] (reverse (trim_slashes (reverse (c ∷ s)))) in
    if is_empty name then codes "/" else name

-- what `strings.Cut` gives before the first underscore
unfoldable pub before_underscore : Text → Text
before_underscore [] = []
before_underscore (c ∷ s) = if c == b'_' then [] else c ∷ before_underscore s

unfoldable pub digit : ℕ → Option ℕ
digit c = if leb b'0' c && leb c b'9' then some (c - b'0') else none

-- `strconv.ParseUint` in base 10 for 64 bits: the range is checked at each digit
unfoldable pub parse_digits : ℕ → Text → Option ℕ
parse_digits n [] = some n
parse_digits n (c ∷ s) = elim (digit c) [
  | none ↦ none
  | some d ↦ elim (ltb (n * 10 + d) (2 ^ 64)) [ true ↦ parse_digits (n * 10 + d) s | false ↦ none ]
]

unfoldable pub parse_uint : Text → Option ℕ
parse_uint s = if is_empty s then none else parse_digits 0 s

pub data MigrationError : Type 0 where
  could_not_list none_found : MigrationError
  no_version : Text → MigrationError
  shared_version : Text → Text → ℕ → MigrationError

unfoldable pub migration_version : Text → Option ℕ
migration_version path = parse_uint (before_underscore (base_name path))

-- `pathByVersion`
abbrev pub Paths : Type 0
Paths = List (ℕ × Text)

unfoldable pub find_path : ℕ → Paths → Option Text
find_path v [] = none
find_path v ((w, path) ∷ m) = if w == v then some path else find_path v m

-- the loop over the files
unfoldable pub collect : List Text → Paths → Result MigrationError Paths
collect [] m = ok m
collect (path ∷ rest) m = elim (migration_version path) [
  | none ↦ err (no_version path)
  | some v ↦ elim (find_path v m) [
    | some other ↦ err (shared_version other path v)
    | none ↦ collect rest ((v, path) ∷ m)
  ]
]

unfoldable pub insert_version : ℕ → List ℕ → List ℕ
insert_version v [] = v ∷ []
insert_version v (w ∷ ws) = if leb v w then v ∷ w ∷ ws else w ∷ insert_version v ws

-- `slices.Sorted` of the keys
unfoldable pub sorted_versions : Paths → List ℕ
sorted_versions [] = []
sorted_versions ((v, path) ∷ m) = insert_version v (sorted_versions m)

abbrev pub path_at : Paths → ℕ → Text
path_at m v = elim (find_path v m) [ some path ↦ path | none ↦ [] ]

abbrev pub order_paths : Paths → List Text
order_paths m = map (path_at m) (sorted_versions m)

abbrev pub order_collected : Result MigrationError Paths → Result MigrationError (List Text)
order_collected (ok m) = ok (order_paths m)
order_collected (err e) = err e

-- `upMigrationPaths`, from what `filepath.Glob` gives
unfoldable pub up_migration_paths : Option (List Text) → Result MigrationError (List Text)
up_migration_paths none = err could_not_list
up_migration_paths (some []) = err none_found
up_migration_paths (some (p ∷ ps)) = order_collected (collect (p ∷ ps) [])

-- how one round of `connect` ends
pub data Attempt : Type 0 where
  no_pool no_answer connected : Attempt

pub data FileRun : Type 0 where
  unreadable rejected executed_file : FileRun

-- How the request of a container ends. `GenericContainer` can fail after the start, as when the
-- wait for the database is over, and gives the container beside its error then.
pub data ContainerRun : Type 0 where
  not_started started_with_error started : ContainerRun

pub record TestWorld : Type 0 where
  pub container : ContainerRun
  pub has_host : Bool
  pub has_port : Bool
  pub attempt : ℕ → Attempt
  pub run_file : Text → FileRun

pub data TestAction : Type 0 where
  container_started container_terminated conn_opened conn_closed : TestAction
  executed : Text → TestAction

pub data SetUpError : Type 0 where
  container_failed host_failed port_failed connect_failed : SetUpError
  file_failed : Text → SetUpError
  migrations_failed : MigrationError → SetUpError

-- `cleanup` lists what the returned function does
pub record SetUp : Type 0 where
  pub trace : List TestAction
  pub error : Option SetUpError
  pub cleanup : List TestAction

module _ (w : TestWorld) where
  -- `connect`, with the rounds left
  unfoldable pub connect : ℕ → ℕ → List TestAction × Bool
  connect zero i = ([], false)
  connect (suc n) i = elim (w.attempt i) [
    | no_pool ↦ connect n (suc i)
    | no_answer ↦ let rest = connect n (suc i) in (conn_opened ∷ conn_closed ∷ rest.0, rest.1)
    | connected ↦ (conn_opened ∷ [], true)
  ]

  unfoldable pub run_sql_file : Text → Bool
  run_sql_file path = elim (w.run_file path) [ executed_file ↦ true | _ ↦ false ]

  -- the loop over the files, up to the first that fails
  unfoldable pub run_files : List Text → List TestAction × Option SetUpError
  unfolding run_sql_file
  run_files [] = ([], none)
  run_files (path ∷ rest) = elim (run_sql_file path) [
    | true ↦ let more = run_files rest in (executed path ∷ more.0, more.1)
    | false ↦ ([], some (file_failed path))
  ]

  abbrev failed_set_up : List TestAction → SetUpError → SetUp
  failed_set_up trace e = record { trace = trace; error = some e; cleanup = [] }

  unfoldable pub with_conn : List TestAction → List Text → SetUp
  with_conn trace sql_paths = elim ((run_files sql_paths).1) [
    | some e ↦
        failed_set_up
          (trace ++ ((run_files sql_paths).0 ++ conn_closed ∷ container_terminated ∷ [])) e
    | none ↦ record {
      trace = trace ++ (run_files sql_paths).0;
      error = none;
      cleanup = conn_closed ∷ container_terminated ∷ [];
    }
  ]

  unfoldable pub with_container : List Text → SetUp
  unfolding with_conn
  with_container sql_paths =
      if (connect 5 0).1
      then with_conn (container_started ∷ (connect 5 0).0) sql_paths
      else failed_set_up (container_started ∷ ((connect 5 0).0 ++ container_terminated ∷ []))
          connect_failed

  unfoldable pub setup_test_db : List Text → SetUp
  setup_test_db sql_paths = elim w.container [
    | not_started ↦ failed_set_up [] container_failed
    | started_with_error ↦ failed_set_up (container_started ∷ []) container_failed
    | started ↦
        if not w.has_host
        then failed_set_up (container_started ∷ container_terminated ∷ []) host_failed
        else if not w.has_port
        then failed_set_up (container_started ∷ container_terminated ∷ []) port_failed
        else with_container sql_paths
  ]

  unfoldable pub setup_test_db_with_migrations : Option (List Text) → List Text → SetUp
  setup_test_db_with_migrations listed seed_paths = elim (up_migration_paths listed) [
    | err e ↦ failed_set_up [] (migrations_failed e)
    | ok paths ↦ setup_test_db (paths ++ seed_paths)
  ]
