-- ===== src/Migration/Store.antt =====
-- What the migrations do with the store (`merk::Merk`): a method whose state is the store.
use many_framework.Prelude.{⊤, none, some}
use many_framework.Types.{Batch, ok, err, storage_apply_failed}
use many_framework.Platform.{Platform}
use many_framework.Storage.State.{Method}

module _ {S : Type 0} (p : Platform S) where
  unfoldable pub apply_to : Batch → Method S ⊤
  apply_to batch s = elim (p.apply s batch) [
    | none ↦ (err storage_apply_failed, s)
    | some s' ↦ (ok tt, s')
  ]

  unfoldable pub commit_to : Method S ⊤
  commit_to s = (ok tt, p.commit s)
