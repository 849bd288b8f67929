-- ===== src/Gsip/Store.antt =====
-- gsip/gsip.go: `NewReader` with the goroutine that collects the checkpoints, `Encode` and `Decode`.
-- encoding/json is a parameter. The channel and the lock only order the appends, one for each checkpoint that the frontier reader sends.
use targz.Prelude.{List, [], ◌∷◌, ◌++◌, Option, none, some}
use targz.Flate.Checkpoint.{Checkpoint}
use targz.Gsip.{Reader}

module _ {R : Type 0} where
  -- `NewReader`, from what `gzip.NewReader` returns.
  unfoldable pub new_reader : Option R → Option (Reader R)
  new_reader none = none
  new_reader (some zr) = some (record { checkpoints = []; idle = zr ∷ [] })

  -- A turn of the goroutine.
  unfoldable pub collect : Checkpoint → Reader R → Reader R
  collect checkpoint r = record r { checkpoints = r.checkpoints ++ (checkpoint ∷ []) }

  -- The goroutine, over all that is sent.
  unfoldable pub collect_all : List Checkpoint → Reader R → Reader R
  unfolding collect
  collect_all [] r = r
  collect_all (c ∷ cs) r = collect_all cs (collect c r)

  module _ {Json : Type 0} (marshal : List Checkpoint → Json)
      (unmarshal : Json → Option (List Checkpoint)) where
    -- `Encode`
    unfoldable pub encode : Reader R → Json
    encode r = marshal r.checkpoints

    -- `Decode`
    unfoldable pub decode : Json → Option (Reader R)
    decode json = elim (unmarshal json) [
      | none ↦ none
      | some checkpoints ↦ some (record { checkpoints = checkpoints; idle = [] })
    ]
