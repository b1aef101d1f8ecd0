-- ===== src/Workflow/Agent/Selection.antt =====
-- `ResolveAgent` honours both the new fields and the deprecated ones.
use fishyume.Base.{◌≡◌, String, true, false, str_eq}
use fishyume.Base.Text.{is_empty}

-- What comes of a new selection and a deprecated one: each that is there is it.
pub record Honours (wanted legacy chosen : String) : Type 0 where
  pub new_kept : is_empty wanted ≡ false → chosen ≡ wanted
  pub old_kept : is_empty legacy ≡ false → chosen ≡ legacy

-- What comes of a driver, of a deprecated backend and of a deprecated tool.
pub record Selects (wanted backend tool chosen : String) : Type 0 where
  pub by_driver : is_empty wanted ≡ false → chosen ≡ wanted
  pub by_direct : backend ≡ "direct" → chosen ≡ "codex"
  pub by_backend : is_empty backend ≡ false → str_eq backend "direct" ≡ false → chosen ≡ backend
  pub by_tool : is_empty backend ≡ true → is_empty tool ≡ false → chosen ≡ tool
