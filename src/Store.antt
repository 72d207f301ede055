-- ===== src/Store.antt =====
-- The tables of ent/schema, with a row for each struct of the ent package that they generate.
-- A time is a number of nanoseconds; the null values of optional columns are `none`.
pub mod Json
pub mod References
use aurforge.Common.{
  ℕ, suc, Text, codes, text_eq, List, ◌∷◌, Option, none, some, Bool, if◌then◌else◌,
}
use aurforge.Store.Json.{Metadata}

abbrev pub Instant : Type 0
Instant = ℕ

pub data SourceKind : Type 0 where
  aur local : SourceKind

pub data Status : Type 0 where
  pending running built published failed skipped : Status

pub data DependencyKind : Type 0 where
  repo_dependency aur_dependency : DependencyKind

pub record ManagedPackage : Type 0 where
  pub id : ℕ
  pub name : Text
  pub source_kind : SourceKind
  pub source_ref : Text
  pub source_path : Text
  pub enabled : Bool
  pub created_at : Instant
  pub updated_at : Instant

pub record PackageVersion : Type 0 where
  pub id : ℕ
  pub package_id : ℕ
  pub revision : Text
  pub source_digest : Text
  pub pkgver : Text
  pub pkgrel : Text
  pub metadata : Metadata
  pub first_seen_at : Instant

pub record Dependency : Type 0 where
  pub id : ℕ
  pub package_version_id : ℕ
  pub dependency_name : Text
  pub dependency_kind : DependencyKind

pub record Job : Type 0 where
  pub id : ℕ
  pub package_version_id : ℕ
  pub kind : Text
  pub status : Status
  pub eligible_at : Instant
  pub claimed_at : Option Instant
  pub finished_at : Option Instant
  pub attempts : ℕ
  pub log_path : Text
  pub error : Text
  pub created_at : Instant

pub record Artifact : Type 0 where
  pub id : ℕ
  pub job_id : ℕ
  pub filename : Text
  pub sha256 : Text
  pub size_bytes : ℕ
  pub published_at : Option Instant

pub record Tables : Type 0 where
  pub packages : List ManagedPackage
  pub versions : List PackageVersion
  pub dependencies : List Dependency
  pub jobs : List Job
  pub artifacts : List Artifact

-- The next value of each table's identity column. A rollback does not give a value back.
pub record Identities : Type 0 where
  pub next_package : ℕ
  pub next_version : ℕ
  pub next_dependency : ℕ
  pub next_job : ℕ
  pub next_artifact : ℕ

abbrev pub is_pending : Status → Bool
is_pending pending = Bool.true
is_pending _ = Bool.false

abbrev pub is_running : Status → Bool
is_running running = Bool.true
is_running _ = Bool.false

abbrev pub is_built : Status → Bool
is_built built = Bool.true
is_built _ = Bool.false

-- The conversion of a source kind, and the validator that runs before a row is saved.
unfoldable pub source_kind_of : Text → Option SourceKind
source_kind_of value =
    if text_eq value (codes "aur")
    then some aur
    else if text_eq value (codes "local")
    then some local
    else none

abbrev pub source_kind_text : SourceKind → Text
source_kind_text aur = codes "aur"
source_kind_text local = codes "local"

abbrev pub status_text : Status → Text
status_text pending = codes "pending"
status_text running = codes "running"
status_text built = codes "built"
status_text published = codes "published"
status_text failed = codes "failed"
status_text skipped = codes "skipped"
