-- ===== src/Authority/Discovery.antt =====
-- src/langsop/authority/discovery.py: which files of a tree are candidates.
pub mod Complete
use lang_sop.Base.{String, Bool, true, false, not, ◌&&◌, List, [], ◌∷◌, any, if◌then◌else◌}
use lang_sop.Text.{starts_with}
use lang_sop.Text.Affixes.{with_slashes}
use lang_sop.Text.Sets.{text_leb}

abbrev pub default_include_globs : List String
default_include_globs =
    "docs/**/*.sop" ∷ "tests/fixtures/sop/**/*.sop" ∷ "tests/fixtures/expected/**/*.sop" ∷ []

abbrev pub default_exclude_globs : List String
default_exclude_globs =
    ".git/**" ∷ ".langsop/**" ∷ ".venv/**" ∷ "__pycache__/**" ∷ ".pytest_cache/**"
    ∷ ".mypy_cache/**" ∷ ".ruff_cache/**" ∷ "dist/**" ∷ "build/**" ∷ "*.egg-info/**"
    ∷ "tests/fixtures/generated/**" ∷ "*.sqlite3" ∷ "*.db" ∷ []

pub record DiscoveryConfig : Type 0 where
  pub include_globs : List String
  pub exclude_globs : List String
  pub follow_symlinks : Bool

pub record DiscoveredArtifact : Type 0 where
  pub root_path : String
  pub source_path : String
  pub source_hash : String
  pub path_role : String
  pub discovery_rule_version : String

pub record DiscoveryDiagnostic : Type 0 where
  pub source_path : String
  pub diagnostic_kind : String
  pub message : String

pub record DiscoveryResult : Type 0 where
  pub artifacts : List DiscoveredArtifact
  pub diagnostics : List DiscoveryDiagnostic

-- What the file system says of one path: `read_bytes` gives the upper-case SHA-256 of the content, or
-- raises `OSError` with a text.
pub data Content : Type 0 where
  hashed : String → Content
  unreadable : String → Content

-- A path that `rglob` gives, relative to the root.
pub record Entry : Type 0 where
  pub relative_path : String
  pub is_symlink : Bool
  pub is_file : Bool
  pub content : Content

pub record Tree : Type 0 where
  pub root : String
  pub root_exists : Bool
  pub entries : List Entry

abbrev role_of_path : String → String
role_of_path path =
    if starts_with path "tests/fixtures/sop/"
    then "fixture_source"
    else if starts_with path "tests/fixtures/expected/"
    then "fixture_expected_ledger"
    else if starts_with path "docs/source/"
    then "preserved_source_or_manifest"
    else if starts_with path "docs/canonical/"
    then "signed_canonical_candidate"
    else if starts_with path "docs/slices/"
    then "slice_surface_candidate"
    else if starts_with path "docs/planning/"
    then "planning_pack_or_readiness_candidate"
    else if starts_with path "docs/schema/"
    then "schema_candidate"
    else if starts_with path "docs/operators/"
    then "operator_contract_candidate"
    else if starts_with path "docs/decisions/"
    then "decision_candidate"
    else if starts_with path "docs/reviews/"
    then "completion_or_proof_review_candidate"
    else if starts_with path "docs/fixtures/"
    then "fixture_plan_or_index_candidate"
    else if starts_with path "docs/runtime/"
    then "runtime_contract_candidate"
    else if starts_with path "docs/surfaces/"
    then "surface_contract_candidate"
    else if starts_with path "docs/operations/"
    then "operations_safety_contract_candidate"
    else if starts_with path "docs/coordination/"
    then "coordination_contract_candidate"
    else if starts_with path "docs/state/"
    then "derived_current_state_candidate"
    else if starts_with path "docs/"
    then "sop_document_candidate"
    else "unknown_sop_candidate"

unfoldable pub classify_sop_path_role : String → String
unfolding with_slashes starts_with
classify_sop_path_role path = role_of_path (with_slashes path)

-- The two lists that the loop appends to.
pub record Found : Type 0 where
  pub artifacts : List DiscoveredArtifact
  pub diagnostics : List DiscoveryDiagnostic

abbrev diagnosed : String → String → String → Found → Found
diagnosed path kind message found = record found {
  diagnostics =
      record { source_path = path; diagnostic_kind = kind; message = message } ∷ found.diagnostics;
}

abbrev read_into : String → String → Content → Found → Found
read_into root path (unreadable message) found = diagnosed path "read_failure" message found
read_into root path (hashed h) found = record found {
  artifacts =
      record {
        root_path = root;
        source_path = path;
        source_hash = h;
        path_role = classify_sop_path_role path;
        discovery_rule_version = "ir2-sop-artifact-discovery-v1";
      }
      ∷ found.artifacts;
}

-- `artifacts.sort(key=lambda artifact: artifact.source_path)`, which is stable.
unfoldable pub insert_artifact :
    DiscoveredArtifact → List DiscoveredArtifact → List DiscoveredArtifact
unfolding text_leb
insert_artifact a [] = a ∷ []
insert_artifact a (b ∷ bs) =
    let rest = insert_artifact a bs in
    if text_leb a.source_path b.source_path then a ∷ b ∷ bs else b ∷ rest

unfoldable pub sort_artifacts : List DiscoveredArtifact → List DiscoveredArtifact
unfolding insert_artifact
sort_artifacts [] = []
sort_artifacts (a ∷ more) = insert_artifact a (sort_artifacts more)

-- `fnmatchcase`, of Python's library, is a parameter.
module _ (fnmatchcase : String → String → Bool) (config : DiscoveryConfig) where
  unfoldable pub matches_any : String → List String → Bool
  unfolding any
  matches_any path patterns = any (fnmatchcase path) patterns

  -- The entries that `_iter_files` yields.
  abbrev pub is_yielded : Entry → Bool
  is_yielded e = not (e.is_symlink && not config.follow_symlinks) && e.is_file

  -- One round of the loop, before the later rounds.
  abbrev visit : String → Entry → Found → Found
  visit root e found =
      if not (is_yielded e)
      then found
      else if not (matches_any e.relative_path config.include_globs)
      then found
      else if matches_any e.relative_path config.exclude_globs
      then diagnosed e.relative_path "excluded_candidate" "Path matched an exclusion rule." found
      else read_into root e.relative_path e.content found

  unfoldable pub find_artifacts : String → List Entry → Found
  unfolding matches_any classify_sop_path_role
  find_artifacts root [] = record { artifacts = []; diagnostics = [] }
  find_artifacts root (e ∷ entries) = visit root e (find_artifacts root entries)

  unfoldable pub discover_sop_artifacts : Tree → DiscoveryResult
  unfolding find_artifacts sort_artifacts
  discover_sop_artifacts tree =
      let found = find_artifacts tree.root tree.entries in
      if not tree.root_exists
      then record {
        artifacts = [];
        diagnostics =
            record {
              source_path = tree.root;
              diagnostic_kind = "root_missing";
              message = "Discovery root does not exist.";
            }
            ∷ [];
      }
      else record { artifacts = sort_artifacts found.artifacts; diagnostics = found.diagnostics }
