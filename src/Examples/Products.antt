-- ===== src/Examples/Products.antt =====
-- Drafts, receipts, terminal runs and callbacks of the product store.
use cyrene_yield.Common.{
  String, ◌≡◌, ◌≢◌, refl, true, false, List, ◌++◌, ◌==◌, Bool-cases, inl, inr, if◌then◌else◌, some,
  [], ◌∷◌, arith, eq_iff, ok, err, lookup, insert,
}
use cyrene_yield.Values.{Fields, normalized_fields}
use cyrene_yield.ProductStore.Resources.{
  Tables, WorkspaceScope, create_draft, workspace_resource_scope,
  idempotency_conflict as draft_conflict,
}
use cyrene_yield.ProductStore.Resources.Drafts.{create_draft_again}
use cyrene_yield.ProductStore.Receipts.{
  idempotency_conflict, recall_receipt, save_receipt, insert_or_ignore, save-recall,
}
use cyrene_yield.ProductStore.Closing.{
  Answer, raised, returned, aborted, Call, add, close_now, called, failures, close, run_calls,
  registered, opened, run_calls_once,
}

b_ne_a : ◌≢◌ {A = String} "b" "a"
b_ne_a = ground (arith, eq_iff "b" "a")

abbrev no_tables : Tables
no_tables = record { resources = []; receipts = []; scopes = [] }

abbrev workspace : WorkspaceScope
workspace = record { organization_id = "org"; workspace_id = "ws" }

abbrev tables : Tables
tables = record {
  resources = record { kind = "draft"; id = "d"; document = Fields.end } ∷ [];
  receipts = record { scope = some workspace; key = "key"; digest = "a"; id = "d" } ∷ [];
  scopes = record { kind = "draft"; id = "d"; scope = workspace } ∷ [];
}

drafts : create_draft no_tables "key" "a" "d" Fields.end (some workspace) ≡ ok (Fields.end, tables)
unfolding create_draft
drafts = refl

create_draft_again_example :
    (create_draft tables "key" "a" "e" Fields.end (some workspace) ≡ ok (Fields.end, tables))
    × (create_draft tables "key" "b" "e" Fields.end (some workspace) ≡ err draft_conflict)
    × (workspace_resource_scope tables "draft" "d" ≡ some workspace)
create_draft_again_example =
    create_draft_again no_tables tables "key" "a" "b" "d" "e" Fields.end Fields.end Fields.end
      (some workspace) refl refl drafts b_ne_a

saves :
    save_receipt [] "key" "a" Fields.end
    ≡ ok (Fields.end, ("key", record { digest = "a"; document = Fields.end }) ∷ [])
unfolding save_receipt insert_or_ignore lookup insert normalized_fields
saves = refl

save-recall_example :
    (recall_receipt (("key", record { digest = "a"; document = Fields.end }) ∷ []) "key" "a"
      ≡ ok (some Fields.end))
    × (recall_receipt (("key", record { digest = "a"; document = Fields.end }) ∷ []) "key" "b"
        ≡ err idempotency_conflict)
    × (save_receipt
          (("key", record { digest = "a"; document = Fields.end }) ∷ [])
          "key"
          "a"
          Fields.end
        ≡ ok (Fields.end, ("key", record { digest = "a"; document = Fields.end }) ∷ []))
    × (save_receipt
          (("key", record { digest = "a"; document = Fields.end }) ∷ [])
          "key"
          "b"
          Fields.end
        ≡ err idempotency_conflict)
save-recall_example = save-recall [] _ "key" "a" "b" Fields.end Fields.end Fields.end saves b_ne_a

-- The first callback registers another and fails.
abbrev answer : String → Answer
answer c =
    if c == "a"
    then record { calls = "c" ∷ []; outcome = raised "broken" }
    else record { calls = []; outcome = returned }

no_abort : (c e : String) → (answer c).outcome ≢ aborted e
no_abort c e h = elim (Bool-cases (c == "a")) [ inl t ↦ cc (rw t at h) | inr f ↦ cc (rw f at h) ]

abbrev closing_calls : List (Call answer)
closing_calls = add "a" ∷ add "b" ∷ close_now ∷ close_now ∷ []

run_calls_once_example :
    ((run_calls answer closing_calls opened).ran
        ++ called answer (run_calls answer closing_calls opened).callbacks
      ≡ called answer (registered answer closing_calls))
    × ((run_calls answer closing_calls opened).closed ≡ true
        → ((run_calls answer closing_calls opened).ran
            ≡ called answer (registered answer closing_calls))
          × ((run_calls answer closing_calls opened).connected ≡ false))
    × ((run_calls answer closing_calls opened).closed ≡ false
        → (close answer (run_calls answer closing_calls opened)).1
          ≡ ok (failures answer (registered answer closing_calls)))
run_calls_once_example = run_calls_once answer no_abort closing_calls

runs_all : (run_calls answer closing_calls opened).ran ≡ "a" ∷ "c" ∷ "b" ∷ []
unfolding run_calls
runs_all = refl
