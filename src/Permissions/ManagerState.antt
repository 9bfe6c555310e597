-- ===== src/Permissions/ManagerState.antt =====
-- The state of `PermissionManager` of permissions/manager.py, and how it is made, changed and
-- inherited; `PreparedToolCall` of tools/base.py.
use fakuicode.Prelude.{
  ℕ, Bool, false, not, ◌&&◌, ◌||◌, Option, none, some, List, [], ◌∷◌, Text, text_eq, any, strip,
  is_empty, leb, if◌then◌else◌,
}
use fakuicode.Permissions.Models.{PermissionMode, PermissionScope, Rule}
use fakuicode.Permissions.Engine.{Snapshot, Guard}
use fakuicode.Permissions.Engine.Modes.{mode_rank}

-- What the file system answers to a save: whether the path is safe, and whether the write succeeds.
pub record Storage : Type 0 where
  pub path_safe : Bool
  pub writable : Bool

-- `guard` and `storage` are the collaborators `_guard` and `_repository`.
pub record Manager : Type 0 where
  pub snapshot : Snapshot
  pub guard : Guard
  pub storage : Option Storage
  pub mode : PermissionMode
  pub session_rules : List Rule
  pub capabilities : List Text
  pub rejected : List (Text × Text)
  pub request_source : Option Text

-- `PreparedToolCall` of tools/base.py, without the arguments, which no decision reads.
pub record PreparedToolCall : Type 0 where
  pub id : Text
  pub name : Text
  pub target : Text
  pub read_only : Bool
  pub permission_scope : PermissionScope
  pub permission_capability : Option Text

-- `PermissionManager(snapshot, guard, …)`
unfoldable pub create : Snapshot → Guard → Option Storage → List Rule → Option Text → Manager
create snapshot guard storage session_rules request_source = record {
  snapshot = snapshot;
  guard = guard;
  storage = storage;
  mode = snapshot.mode;
  session_rules = session_rules;
  capabilities = [];
  rejected = [];
  request_source = request_source;
}

unfoldable pub begin_request : Manager → Manager
begin_request m = record m { rejected = [] }

-- `set_mode` refuses a locked configuration.
unfoldable pub set_mode : PermissionMode → Manager → Option Manager
set_mode mode m = if m.snapshot.locked then none else some (record m { mode = mode })

-- `_normalize_session_capability`; `str.isprintable` goes by a table of characters, `printable`.
valid_capability : (ℕ → Bool) → Text → Bool
unfolding text_eq strip any
valid_capability printable capability =
    not (is_empty capability)
    && text_eq capability (strip capability)
    && not (any (λ c. not (printable c)) capability)

unfoldable pub grant_session_capability : (ℕ → Bool) → Text → Manager → Option Manager
unfolding valid_capability
grant_session_capability printable capability m =
    if valid_capability printable capability
    then some (record m { capabilities = capability ∷ m.capabilities })
    else none

-- `updated` is what the repository's `set_project_trusted` returns, `none` if it raises.
unfoldable pub set_project_trusted : Option Snapshot → Manager → Option Manager
set_project_trusted updated m = elim m.storage [
  | none ↦ none
  | some storage ↦ elim updated [
    | none ↦ none
    | some loaded ↦
        some
          (record m { snapshot = record m.snapshot { project_trusted = loaded.project_trusted } })
  ]
]

-- The owner of a handler that can be closed closes it first.
unfoldable pub close : Manager → Manager
close m = record m { session_rules = []; capabilities = []; rejected = [] }

-- `_narrower_mode`
unfoldable pub narrower_mode : PermissionMode → PermissionMode → PermissionMode
unfolding mode_rank
narrower_mode parent requested =
    if leb (mode_rank parent) (mode_rank requested) then parent else requested

abbrev or_else {ℓ} : {A : Type ℓ} → Option A → A → A
or_else none a = a
or_else (some b) a = b

unfoldable pub spawn_child : Option PermissionMode → Option Text → Option Guard → Manager → Manager
unfolding narrower_mode create
spawn_child mode request_source guard m =
    record (create m.snapshot (or_else guard m.guard) m.storage m.session_rules request_source) {
      mode = narrower_mode m.mode (or_else mode m.mode);
    }

-- `_has_session_capability` looks through the ancestors, nearest first.
unfoldable pub has_session_capability : Text → List Manager → Bool
unfolding any text_eq
has_session_capability capability [] = false
has_session_capability capability (m ∷ ancestors) =
    any (text_eq capability) m.capabilities || has_session_capability capability ancestors
