-- ===== src/Tests/Databases.antt =====
-- The theorems on test databases at concrete directories.
use mathlib.Core.List.{Perm}
use prompt_sdk.Prelude.{
  ℕ, ◌≡◌, ◌≢◌, ◌↔◌, refl, true, some, List, [], ◌∷◌, ◌++◌, Text, codes, ok, err, if◌then◌else◌,
  ◌==◌,
}
use prompt_sdk.TestDb.{
  ContainerRun, started_with_error, TestWorld, no_answer, connected, executed_file,
  up_migration_paths, collect, migration_version, base_name, base_from, before_underscore,
  parse_uint, parse_digits, digit, find_path, sorted_versions, insert_version, setup_test_db,
  with_container, with_conn, connect, run_files, shared_version,
}
use prompt_sdk.TestDb.Order.{VersionsAre, Increasing}
use prompt_sdk.TestDb.Versions.{up_migration_paths_iff}
use prompt_sdk.TestDb.Balance.{IsBalanced, setup_test_db-IsBalanced_iff, files}

abbrev listed : List Text
listed = codes "db/10_b.up.sql" ∷ codes "db/2_a.up.sql" ∷ codes "db/0001_init.up.sql" ∷ []

in_order :
    up_migration_paths (some listed)
    ≡ ok (codes "db/0001_init.up.sql" ∷ codes "db/2_a.up.sql" ∷ codes "db/10_b.up.sql" ∷ [])
unfolding up_migration_paths collect migration_version base_name base_from before_underscore
    parse_uint parse_digits digit find_path sorted_versions insert_version
in_order = refl

same_version :
    up_migration_paths (some (codes "db/1_b.up.sql" ∷ codes "db/0001_init.up.sql" ∷ []))
    ≡ err (shared_version (codes "db/1_b.up.sql") (codes "db/0001_init.up.sql") 1)
unfolding up_migration_paths collect migration_version base_name base_from before_underscore
    parse_uint parse_digits digit find_path
same_version = refl

up_migration_paths_iff_example :
    (up_migration_paths (some listed) ≡ ok listed)
    ↔ ((listed ≢ []) × Perm listed listed × ((vs : List ℕ) × VersionsAre listed vs × Increasing vs))
up_migration_paths_iff_example = up_migration_paths_iff listed listed

-- The database answers in the second round.
abbrev world : TestWorld
world = record {
  container = ContainerRun.started;
  has_host = true;
  has_port = true;
  attempt = λ i. if i == 0 then no_answer else connected;
  run_file = λ path. executed_file;
}

setup_test_db-IsBalanced_iff_example :
    IsBalanced ((setup_test_db world listed).trace ++ (setup_test_db world listed).cleanup)
    ↔ (world.container ≢ started_with_error)
setup_test_db-IsBalanced_iff_example = setup_test_db-IsBalanced_iff world listed

all_executed : files (setup_test_db world listed).trace ≡ listed
unfolding setup_test_db with_container with_conn connect run_files
all_executed = refl
