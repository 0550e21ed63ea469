-- ===== src/Store/MergeTests.antt =====
-- Store.Add and OpenEntry at concrete inputs.
use certkit.Result.{ok, Ensures, returns}
use certkit.Store.Tests.{lib, full_store, full_store-IsValid}
use certkit.Store.Operations.{new_store}
use certkit.Store.Sessions.{new_store-IsValid}
use certkit.Store.Reconcile.{add, open_entry}
use certkit.Store.Valid.{IsValid}
use certkit.Store.Merge.{add-IsValid}
use certkit.Store.Pairs.{IsPair, open_entry-IsPair}

add-IsValid_example : Ensures (λ r. IsValid r.1) (add lib new_store full_store)
add-IsValid_example = add-IsValid lib new_store full_store new_store-IsValid full_store-IsValid

open_entry-IsPair_example : Ensures (IsPair lib) (open_entry lib (ok full_store) (ok full_store))
open_entry-IsPair_example =
    open_entry-IsPair lib (ok full_store) (ok full_store) (returns tt) (returns tt)
