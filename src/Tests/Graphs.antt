-- ===== src/Tests/Graphs.antt =====
-- The theorems on blueprints at the sample patch.
use xrune.Base.{◌≡◌, ◌⊎◌, false, true, [], ◌∷◌, ◌++◌}
use xrune.Blueprint.Wiring.{
  IsWellFormed, Connectable, ParamConnectable, connect_at, connect_param_at, connect_lem,
  connect_param_lem,
}
use xrune.Blueprint.Editing.{edits, built-IsWellFormed}
use xrune.Blueprint.{empty}
use xrune.Tests.Samples.{recipe, patch, link, param_link}

pub patch-IsWellFormed : IsWellFormed patch
unfolding patch
patch-IsWellFormed = built-IsWellFormed recipe

built-IsWellFormed_example : IsWellFormed (edits empty recipe)
built-IsWellFormed_example = built-IsWellFormed recipe

-- The input of node 1 is taken.
connect_lem_example :
    Connectable patch (link 2 1)
      × (connect_at patch (link 2 1)
          ≡ (record patch { connections = patch.connections ++ link 2 1 ∷ [] }, true))
    ⊎ (¬ Connectable patch (link 2 1)) × (connect_at patch (link 2 1) ≡ (patch, false))
connect_lem_example = connect_lem patch (link 2 1)

connect_param_lem_example :
    ParamConnectable patch (param_link 3 0)
      × (connect_param_at patch (param_link 3 0) ≡ (
        record patch { param_connections = patch.param_connections ++ param_link 3 0 ∷ [] },
        true,
      ))
    ⊎ (¬ ParamConnectable patch (param_link 3 0))
      × (connect_param_at patch (param_link 3 0) ≡ (patch, false))
connect_param_lem_example = connect_param_lem patch (param_link 3 0)
