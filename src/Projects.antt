-- ===== src/Projects.antt =====
-- internal/projects/types.go: the repositories that jobs are made for.
use code_maintainer.Base.{String, Bool, ◌&&◌, [], ◌∷◌, ◌is◌, if◌then◌else◌}
use code_maintainer.Base.Clock.{Time}
use code_maintainer.Base.Text.{is_empty, has_suffix}
use code_maintainer.Base.Patterns.{safe_id, is_repository}
use code_maintainer.Scheduler.Types.{one_of}

pub record Project : Type 0 where
  pub id : String
  pub provider : String
  pub repository : String
  pub default_branch : String
  pub local_remote_name : String
  pub enabled : Bool
  pub created_at : Time
  pub updated_at : Time

pub record UpsertRequest : Type 0 where
  pub id : String
  pub provider : String
  pub repository : String
  pub default_branch : String
  pub local_remote_name : String

-- Whether Validate passes.
unfoldable pub upsert_valid : UpsertRequest → Bool
upsert_valid r =
    safe_id r.id
    && is_repository r.repository
    && safe_id r.default_branch
    && one_of ("local" ∷ "github" ∷ "gitlab" ∷ []) r.provider
    && (if r.provider is "local"
        then safe_id r.local_remote_name && has_suffix r.local_remote_name ".git"
        else is_empty r.local_remote_name)
