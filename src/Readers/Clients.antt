-- ===== src/Readers/Clients.antt =====
-- pkg/slice/metrics/clientpool.go: ClientPool.Get. `build` is buildPromClient, with `none` for its
-- error. The state of the pool is what each of the two locked sections takes and leaves.
use ntn_operators.Base.{Option, none, some, List, Text, is_empty, if◌then◌else◌}
use ntn_operators.Base.Dict.{lookup, insert}
use ntn_operators.Readers.{text_key}

module _ {ℓ} {C : Type ℓ} where
  -- The section under the write lock: a client that another caller has stored in the meantime wins.
  unfoldable pub store_client : Text → C → List (Text × C) → C × List (Text × C)
  store_client endpoint built clients = elim (lookup endpoint clients) [
    | some existing ↦ (existing, clients)
    | none ↦ (built, insert endpoint built clients)
  ]

  unfoldable pub get_client :
      (Text → Option C) → Text → List (Text × C) → Option C × List (Text × C)
  unfolding store_client
  get_client build endpoint clients =
      if is_empty endpoint then (none, clients) else elim (lookup endpoint clients) [
        | some c ↦ (some c, clients)
        | none ↦ elim (build endpoint) [
          | none ↦ (none, clients)
          | some built ↦ let r = store_client endpoint built clients in (some r.0, r.1)
        ]
      ]
