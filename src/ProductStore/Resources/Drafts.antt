-- ===== src/ProductStore/Resources/Drafts.antt =====
-- What create_draft promises of a key, and what a workspace can list.
use cyrene_yield.Common.{
  All-filter, All-sort_by, String, ◌≡◌, ◌≢◌, refl, Bool, true, false, not, ◌&&◌, Option, none, some,
  List, [], ◌∷◌, ◌++◌, ◌==◌, eq_iff, eq_refl, arith, any, find, filter, All, Result, ok, err, ◌>>◌,
  raise_if, raise_if-ok,
}
use cyrene_yield.Values.{Fields}
use cyrene_yield.ProductStore.Resources.{
  WorkspaceScope, Tables, StoreError, idempotency_conflict, integrity_error, same_scope_option,
  is_resource, is_scope_of, is_receipt, in_workspace, get, workspace_resource_scope, with_draft,
  list_for_workspace, list_unscoped, is_unscoped, id_le, draft_new, draft_again, create_draft,
}

module _ {ℓ} {A : Type ℓ} where
  -- A row that is appended is found if no row before it is.
  find-append_none :
      (p : A → Bool) (xs : List A) (x : A)
      → any p xs ≡ false
      → p x ≡ true
      → find p (xs ++ x ∷ []) ≡ some x
  find-append_none p [] x n h = rw h refl
  find-append_none p (y ∷ ys) x n h = ground (arith, find-append_none p ys x)

  find-none : (p : A → Bool) (xs : List A) → find p xs ≡ none → any p xs ≡ false
  find-none p [] h = refl
  find-none p (y ∷ ys) h = ground (arith, find-none p ys)

  any-none : (p : A → Bool) (xs : List A) → any p xs ≡ false → find p xs ≡ none
  any-none p [] h = refl
  any-none p (y ∷ ys) h = ground (arith, any-none p ys)

same_scope_option_refl : (s : Option WorkspaceScope) → same_scope_option s s ≡ true
same_scope_option_refl none = refl
same_scope_option_refl (some s) = ground (arith, eq_refl s.organization_id, eq_refl s.workspace_id)

same_scope_option-eq : (s t : Option WorkspaceScope) → same_scope_option s t ≡ true → s ≡ t
same_scope_option-eq none none h = refl
same_scope_option-eq (some s) (some t) h =
    let o : s.organization_id ≡ t.organization_id =
      ground
        (arith, eq_iff s.organization_id t.organization_id, eq_iff s.workspace_id t.workspace_id) in
    let w : s.workspace_id ≡ t.workspace_id =
      ground
        (arith, eq_iff s.organization_id t.organization_id, eq_iff s.workspace_id t.workspace_id) in
    λ i. some (record { organization_id = o i; workspace_id = w i })
same_scope_option-eq none (some t) h = cc
same_scope_option-eq (some s) none h = cc

-- What a workspace lists is of the kind that it asked for and has exactly its scope; what is listed as
-- unscoped has none, so the two have no resource in common.
pub list_for_workspace_scope :
    (t : Tables) (kind : String) (scope : WorkspaceScope)
    → All
        (λ r. (r.kind ≡ kind) × (workspace_resource_scope t r.kind r.id ≡ some scope))
        (list_for_workspace t kind scope)
      × All
          (λ r. (r.kind ≡ kind) × (workspace_resource_scope t r.kind r.id ≡ none))
          (list_unscoped t kind)
unfolding list_for_workspace list_unscoped
list_for_workspace_scope t kind scope = (
  All-sort_by _ id_le (filter (in_workspace t kind scope) t.resources) (
      All-filter _ (in_workspace t kind scope) t.resources (λ r h. (
        ground (arith, eq_iff r.kind kind),
        same_scope_option-eq (workspace_resource_scope t r.kind r.id) (some scope) (ground arith),
      ))),
  All-sort_by _ id_le (filter (is_unscoped t kind) t.resources) (
      All-filter _ (is_unscoped t kind) t.resources (λ r h. (
        ground (arith, eq_iff r.kind kind),
        same_scope_option-eq (workspace_resource_scope t r.kind r.id) none (ground arith),
      ))),
)

draft_new-eq :
    (t t' : Tables) (key digest id : String) (document d : Fields) (scope : Option WorkspaceScope)
    → draft_new t key digest id document scope ≡ ok (d, t')
    → (document ≡ d)
      × (with_draft t key digest id document scope ≡ t')
      × (any (is_resource "draft" id) t.resources ≡ false)
unfolding draft_new
draft_new-eq t t' key digest id document d scope h =
    let taken = any (is_scope_of "draft" id) t.scopes && not (same_scope_option scope none) in
    let after : Result StoreError (Fields × Tables) =
      ok (document, with_draft t key digest id document scope) in
    let (new, h₁) =
      raise_if-ok (any (is_resource "draft" id) t.resources) integrity_error
        (raise_if taken integrity_error >> after) h in
    let (free, h₂) = raise_if-ok taken integrity_error after h₁ in (cc h₂, cc h₂, new)

module _ (t : Tables) (key digest id : String) (document : Fields) (scope : Option WorkspaceScope)
    (fresh : find (is_receipt scope key) t.receipts ≡ none)
    (unscoped : any (is_scope_of "draft" id) t.scopes ≡ false)
    (new : any (is_resource "draft" id) t.resources ≡ false) where
  abbrev pub after : Tables
  after = with_draft t key digest id document scope

  found_receipt :
      find (is_receipt scope key) after.receipts
      ≡ some (record { scope = scope; key = key; digest = digest; id = id })
  found_receipt =
      find-append_none (is_receipt scope key) t.receipts _
        (find-none (is_receipt scope key) t.receipts fresh)
        (ground (arith, same_scope_option_refl scope, eq_refl key))

  found_document : get after "draft" id ≡ ok document
  unfolding get
  found_document =
      rw
        (
          find-append_none (is_resource "draft" id) t.resources
              (record { kind = "draft"; id = id; document = document }) new (eq_refl id),
          get,
        )
        refl

  found_scope : workspace_resource_scope after "draft" id ≡ scope
  unfolding workspace_resource_scope
  found_scope = by_scope scope
    where
      by_scope :
          (o : Option WorkspaceScope)
          → workspace_resource_scope (with_draft t key digest id document o) "draft" id ≡ o
      by_scope none =
          rw (any-none (is_scope_of "draft" id) t.scopes unscoped, workspace_resource_scope) refl
      by_scope (some s) =
          rw
            (
              find-append_none (is_scope_of "draft" id) t.scopes
                  (record { kind = "draft"; id = id; scope = s }) unscoped (eq_refl id),
              workspace_resource_scope,
            )
            refl

  again_same :
      (id' : String) (later : Fields)
      → create_draft after key digest id' later scope ≡ ok (document, after)
  unfolding create_draft draft_again
  again_same id' later =
      rw (found_receipt, create_draft)
        (rw (eq_refl digest, found_scope, draft_again)
          (rw (same_scope_option_refl scope, found_document) refl))

  again_other :
      (other id' : String) (later : Fields)
      → other ≢ digest
      → create_draft after key other id' later scope ≡ err idempotency_conflict
  unfolding create_draft draft_again
  again_other other id' later ne =
      let differ : (digest == other) ≡ false = ground (arith, eq_iff digest other) in
      rw (found_receipt, create_draft) (rw (differ, draft_again) refl)

-- After a draft is created under a new key, for an identity without a scope, the same command under the
-- key returns the first document, whatever document and identity come with it, and writes nothing;
-- another command under the key is a conflict; the draft has the scope it was created with.
pub create_draft_again :
    (t t' : Tables) (key digest other id id' : String) (document later d : Fields)
    (scope : Option WorkspaceScope)
    → find (is_receipt scope key) t.receipts ≡ none
    → any (is_scope_of "draft" id) t.scopes ≡ false
    → create_draft t key digest id document scope ≡ ok (d, t')
    → other ≢ digest
    → (create_draft t' key digest id' later scope ≡ ok (document, t'))
      × (create_draft t' key other id' later scope ≡ err idempotency_conflict)
      × (workspace_resource_scope t' "draft" id ≡ scope)
unfolding create_draft
create_draft_again t t' key digest other id id' document later d scope fresh unscoped made ne =
    let (same, after_eq, new) =
      draft_new-eq t t' key digest id document d scope (rw (fresh, create_draft) at made) in
    rw (← after_eq) (
      again_same t key digest id document scope fresh unscoped new id' later,
      again_other t key digest id document scope fresh unscoped new other id' later ne,
      found_scope t key digest id document scope fresh unscoped new,
    )
