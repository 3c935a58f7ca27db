-- ===== src/ProductStore/Resources.antt =====
-- The tables resources, receipts, workspace_draft_receipts and workspace_resource_scopes of
-- product_store.py: the documents of each kind, and the workspace that owns a document.
pub mod Drafts
use cyrene_yield.Common.{
  String, Bool, true, false, not, ◌&&◌, Option, none, some, List, [], ◌∷◌, ◌++◌, ◌==◌, any, find,
  filter, Result, ok, err, ◌>>=◌, ◌>>◌, raise_if, if◌then◌else◌, sort_by, text_le,
}
use cyrene_yield.Values.{Fields, normalized_fields}

pub record Resource : Type 0 where
  pub kind : String
  pub id : String
  pub document : Fields

-- A trusted scope: the organisation and the workspace.
pub record WorkspaceScope : Type 0 where
  pub organization_id : String
  pub workspace_id : String

pub record ScopeRow : Type 0 where
  pub kind : String
  pub id : String
  pub scope : WorkspaceScope

pub record DraftReceipt : Type 0 where
  pub scope : Option WorkspaceScope
  pub key : String
  pub digest : String
  pub id : String

pub record Tables : Type 0 where
  pub resources : List Resource
  -- receipts, whose rows have no scope, and workspace_draft_receipts
  pub receipts : List DraftReceipt
  pub scopes : List ScopeRow

pub data StoreError : Type 0 where
  unknown_resource : StoreError
  idempotency_conflict : StoreError
  scope_conflict : StoreError
  -- sqlite3.IntegrityError on a primary key
  integrity_error : StoreError

abbrev pub same_scope : WorkspaceScope → WorkspaceScope → Bool
same_scope a b = a.organization_id == b.organization_id && a.workspace_id == b.workspace_id

abbrev pub same_scope_option : Option WorkspaceScope → Option WorkspaceScope → Bool
same_scope_option none none = true
same_scope_option (some a) (some b) = same_scope a b
same_scope_option _ _ = false

-- WHERE kind=? AND id=?
abbrev pub is_resource : String → String → Resource → Bool
is_resource kind id r = r.kind == kind && r.id == id

abbrev pub is_scope_of : String → String → ScopeRow → Bool
is_scope_of kind id r = r.kind == kind && r.id == id

abbrev pub is_receipt : Option WorkspaceScope → String → DraftReceipt → Bool
is_receipt scope key r = same_scope_option r.scope scope && r.key == key

-- get
unfoldable pub get : Tables → String → String → Result StoreError Fields
get t kind id = elim (find (is_resource kind id) t.resources) [
  | none ↦ err unknown_resource
  | some r ↦ ok r.document
]

-- workspace_resource_scope
unfoldable pub workspace_resource_scope : Tables → String → String → Option WorkspaceScope
workspace_resource_scope t kind id = elim (find (is_scope_of kind id) t.scopes) [
  | none ↦ none
  | some r ↦ some r.scope
]

-- ORDER BY id
abbrev pub id_le : Resource → Resource → Bool
id_le a b = text_le a.id b.id

-- list: the rows whose documents are returned
unfoldable pub list : Tables → String → List Resource
list t kind = sort_by id_le (filter (λ r. r.kind == kind) t.resources)

-- The conditions of list_for_workspace and list_unscoped, with the join on the scope's row.
abbrev pub in_workspace : Tables → String → WorkspaceScope → Resource → Bool
in_workspace t kind scope r =
    r.kind == kind && same_scope_option (workspace_resource_scope t r.kind r.id) (some scope)

unfoldable pub list_for_workspace : Tables → String → WorkspaceScope → List Resource
list_for_workspace t kind scope = sort_by id_le (filter (in_workspace t kind scope) t.resources)

abbrev pub is_unscoped : Tables → String → Resource → Bool
is_unscoped t kind r =
    r.kind == kind && same_scope_option (workspace_resource_scope t r.kind r.id) none

unfoldable pub list_unscoped : Tables → String → List Resource
list_unscoped t kind = sort_by id_le (filter (is_unscoped t kind) t.resources)

-- save: INSERT OR REPLACE, of the document with its keys sorted
unfoldable pub save : Tables → String → String → Fields → Tables
save t kind id document = record t {
  resources =
      filter (λ r. not (is_resource kind id r)) t.resources
      ++ record { kind = kind; id = id; document = normalized_fields document } ∷ [];
}

-- A row of the table of scopes, where a scope is given.
abbrev pub with_scope : Tables → String → String → Option WorkspaceScope → Tables
with_scope t kind id none = t
with_scope t kind id (some scope) = record t {
  scopes = t.scopes ++ record { kind = kind; id = id; scope = scope } ∷ [];
}

-- The branch of create_draft on a key that is taken.
unfoldable pub draft_again :
    Tables → DraftReceipt → String → Option WorkspaceScope → Result StoreError (Fields × Tables)
unfolding workspace_resource_scope get
draft_again t row digest scope = do
  raise_if (not (row.digest == digest)) idempotency_conflict
  raise_if (not (same_scope_option (workspace_resource_scope t "draft" row.id) scope))
      scope_conflict
  document ← get t "draft" row.id
  ok (document, t)

-- What a new draft writes: the resource, its scope and the receipt.
abbrev pub with_draft : Tables → String → String → String → Fields → Option WorkspaceScope → Tables
with_draft t key digest id document scope =
    let scoped = with_scope t "draft" id scope in
    record scoped {
      resources = t.resources ++ record { kind = "draft"; id = id; document = document } ∷ [];
      receipts = t.receipts ++ record { scope = scope; key = key; digest = digest; id = id } ∷ [];
    }

-- The inserts refuse a draft that is there, and a scope of a draft that is there.
unfoldable pub draft_new :
    Tables
    → String
    → String
    → String
    → Fields
    → Option WorkspaceScope
    → Result StoreError (Fields × Tables)
draft_new t key digest id document scope = do
  raise_if (any (is_resource "draft" id) t.resources) integrity_error
  raise_if (any (is_scope_of "draft" id) t.scopes && not (same_scope_option scope none))
      integrity_error
  ok (document, with_draft t key digest id document scope)

-- create_draft, of the digest of the command and the document with its identity
unfoldable pub create_draft :
    Tables
    → String
    → String
    → String
    → Fields
    → Option WorkspaceScope
    → Result StoreError (Fields × Tables)
unfolding draft_again draft_new
create_draft t key digest id document scope = elim (find (is_receipt scope key) t.receipts) [
  | some row ↦ draft_again t row digest scope
  | none ↦ draft_new t key digest id document scope
]
