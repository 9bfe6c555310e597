-- ===== src/Permissions/Models.antt =====
-- permissions/models.py: the value objects of the permission subsystem.
use fakuicode.Prelude.{Bool, Option, String, List, Text}
use fakuicode.Matching.{Piece, fullmatch}

pub data PermissionMode : Type 0 where
  strict default trusted : PermissionMode

pub data DecisionKind : Type 0 where
  allow deny ask : DecisionKind

pub data RuleEffect : Type 0 where
  allow deny : RuleEffect

pub data RuleSource : Type 0 where
  user project_shared project_local session : RuleSource

pub data ApprovalChoice : Type 0 where
  deny once session permanent : ApprovalChoice

pub data PermissionScope : Type 0 where
  target tool : PermissionScope

-- `matcher` is the compiled pattern behind the field `_matcher`.
pub record Rule : Type 0 where
  pub expression : Text
  pub tool_name : Text
  pub pattern : Text
  pub effect : RuleEffect
  pub source : RuleSource
  pub exact : Bool
  pub matcher : List Piece

unfoldable pub matches : Rule → Text → Bool
matches rule value = fullmatch rule.matcher value

-- The values that the field `layer` takes.
pub data Layer : Type 0 where
  task_mode dangerous_command user_global_deny rule locked_config safe_read : Layer
  session_capability mode rejection_cache user_confirmation parent_ledger : Layer
  permission_storage : Layer

-- The values that the field `reason` takes; the guard's reasons are its own texts.
pub data Reason : Type 0 where
  plan_mode_read_only config_locked workspace_read host_capability strict_needs_rule : Reason
  trusted_file_changes needs_confirmation already_rejected user_denied allowed_once : Reason
  storage_unavailable save_failed allowed_permanently : Reason
  allowed_for_session : PermissionScope → Reason
  blocked : String → Reason
  matched : RuleSource → RuleEffect → Reason

pub record Decision : Type 0 where
  pub kind : DecisionKind
  pub reason : Reason
  pub layer : Layer
  pub rule : Option Rule

pub record PermissionRequest : Type 0 where
  pub request_id : Text
  pub call_id : Text
  pub tool_name : Text
  pub target : Text
  pub reason : Reason
  pub exact_rule : Text
  pub scope : PermissionScope
  pub source : Option Text

pub record PermissionSubject : Type 0 where
  pub tool_name : Text
  pub target : Text
  pub read_only : Bool
