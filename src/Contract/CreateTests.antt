-- ===== src/Contract/CreateTests.antt =====
-- A new request that is stored and published.
use mc_gatekeeper.Prelude.{String, some, [], refl}
use mc_gatekeeper.Js.{null, fulfilled}
use mc_gatekeeper.Page.{mount}
use mc_gatekeeper.Server.{Server, validate_create_request, create_valid, handle_create_request}
use mc_gatekeeper.Server.Tests.Store.{store, store-IsCollection}
use mc_gatekeeper.Tokens.Sample.{sample}
use mc_gatekeeper.Application.{initial, on_created}
use mc_gatekeeper.Contract.Decide.{decrypt}
use mc_gatekeeper.Contract.Create.{Settles, resolves, IsCreated, on_created-handle_create_request}
use mc_gatekeeper.Contract.Tests.{object_id, steve, env}

abbrev keys : String → String
keys k = k

abbrev nobody : Server
nobody = record { db = []; published = [] }

created-Settles :
    Settles
      (handle_create_request store (decrypt sample "key") object_id env (some steve) nobody).1
      (fulfilled 201 null)
unfolding handle_create_request validate_create_request create_valid
created-Settles = resolves "2" null

on_created-handle_create_request_example :
    IsCreated store
      (decrypt sample "key")
      object_id
      store-IsCollection
      (λ s. refl)
      env
      (some steve)
      nobody
      (handle_create_request store (decrypt sample "key") object_id env (some steve) nobody).0
unfolding on_created
on_created-handle_create_request_example =
    on_created-handle_create_request store (decrypt sample "key") object_id store-IsCollection
      (λ s. refl) keys env (some steve) nobody (fulfilled 201 null) (mount initial) created-Settles
      refl refl
