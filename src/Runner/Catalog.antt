-- ===== src/Runner/Catalog.antt =====
-- runner/internal/scenario/catalog.go: the built-in scenarios.
use Prim.Native.String.{◌++◌ as append_text}
use proof_layer.Base.{ℕ, String, Option, List, [], ◌∷◌, String_eq}
use proof_layer.Base.Assoc.{Assoc, lookup}

pub record Definition : Type 0 where
  pub id : String
  pub version : String
  pub handler : String
  pub platform : String
  pub timeout_seconds : ℕ
  pub cleanup_handler : String
  pub expected_provider : String
  pub expected_event_ids : List ℕ
  pub required_fields : List String

abbrev process_marker : Definition
process_marker = record {
  id = "windows-process-marker";
  version = "0.1.0";
  handler = "builtin.emit_process_marker";
  platform = "windows";
  timeout_seconds = 30;
  cleanup_handler = "builtin.verify_no_artifacts";
  expected_provider = "sysmon";
  expected_event_ids = 1 ∷ [];
  required_fields = "host.name" ∷ "process.name" ∷ "process.command_line" ∷ "user.name" ∷ [];
}

abbrev registry_run_key_canary : Definition
registry_run_key_canary = record {
  id = "windows-registry-run-key-canary";
  version = "0.1.0";
  handler = "builtin.create_registry_canary";
  platform = "windows";
  timeout_seconds = 30;
  cleanup_handler = "builtin.remove_registry_value";
  expected_provider = "sysmon";
  expected_event_ids = 13 ∷ [];
  required_fields = "host.name" ∷ "registry.path" ∷ "registry.value" ∷ "user.name" ∷ [];
}

abbrev scheduled_task_canary : Definition
scheduled_task_canary = record {
  id = "windows-scheduled-task-canary";
  version = "0.1.0";
  handler = "builtin.create_scheduled_task_canary";
  platform = "windows";
  timeout_seconds = 30;
  cleanup_handler = "builtin.delete_scheduled_task";
  expected_provider = "windows_event_log";
  expected_event_ids = 106 ∷ 141 ∷ [];
  required_fields = "host.name" ∷ "task.name" ∷ "user.name" ∷ [];
}

-- `key`
abbrev pub catalog_key : String → String → String
catalog_key id version = append_text id (append_text "@" version)

abbrev pub entry_of : Definition → String × Definition
entry_of d = (catalog_key d.id d.version, d)

-- `BuiltInCatalog`
abbrev pub built_in_catalog : Assoc String Definition
built_in_catalog =
    entry_of process_marker ∷ entry_of registry_run_key_canary ∷ entry_of scheduled_task_canary ∷ []

-- `Resolve`; `none` is ErrNotAllowlisted.
unfoldable pub resolve : Assoc String Definition → String → String → Option Definition
unfolding lookup
resolve catalog id version = lookup (catalog_key id version) catalog
