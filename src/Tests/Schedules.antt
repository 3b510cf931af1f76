-- ===== src/Tests/Schedules.antt =====
-- The theorems on compilation at the sample patch.
use xrune.Base.{ℕ, ◌*◌, ◌/◌, ◌≡◌, ◌↔◌, ◌^◌, refl, some, true, List, [], ◌∷◌, All, arith}
use xrune.Blueprint.Wiring.{IsWellFormed}
use xrune.Blueprint.Editing.{adds, connects, built-IsWellFormed}
use xrune.Schedule.Power.{is_power_of_two, is_power_of_two_iff}
use xrune.Schedule.Topo.{edges, topo_sort}
use xrune.Schedule.Topo.Order.{IsSorted, IsRanked, topo_sort-IsSorted, topo_sort-acyclic}
use xrune.Schedule.{CompiledSchedule, compile}
use xrune.Schedule.Compiled.Order.{IsOrderOf, compile-IsOrderOf}
use xrune.Schedule.Compiled.Plain.{IsPlain, compile_plain_iff}
use xrune.Schedule.Compiled.Rates.{
  IsMultirate, compile-IsMultirate, compile_slices, stride_of, calls_of,
}
use xrune.Schedule.Compiled.Memory.{
  OutputsApart, compile-OutputsApart, StatesApart, compile-StatesApart, demand,
}
use xrune.Schedule.Layout.Regions.{padded}
use xrune.Schedule.Compiled.Wiring.{IsWired, compile-IsWired}
use xrune.Tests.Samples.{
  programs, patch, plan, steady_patch, compile-patch, link, up2, oscillator, gain,
}
use xrune.Tests.Graphs.{patch-IsWellFormed}

is_power_of_two_iff_example : (is_power_of_two 128 ≡ true) ↔ ((k : ℕ) × (128 ≡ 2 ^ k))
is_power_of_two_iff_example = is_power_of_two_iff 128

topo_sort-IsSorted_example :
    (out : List ℕ) × (topo_sort 3 ((2, 0) ∷ (1, 2) ∷ []) ≡ some out)
    × IsSorted 3 ((2, 0) ∷ (1, 2) ∷ []) out
topo_sort-IsSorted_example = topo_sort-IsSorted 3 ((2, 0) ∷ (1, 2) ∷ []) (omega arith)

topo_sort-acyclic_example :
    (◌≡◌ {A = ℕ} 3 3) ↔ ((rank : ℕ → ℕ) × IsRanked rank ((2, 0) ∷ (1, 2) ∷ []))
unfolding programs
topo_sort-acyclic_example =
    topo_sort-acyclic 3 ((2, 0) ∷ (1, 2) ∷ []) (1 ∷ 2 ∷ 0 ∷ []) (omega arith) refl

compile-IsOrderOf_example : IsOrderOf patch plan.topo_order
compile-IsOrderOf_example = compile-IsOrderOf patch patch-IsWellFormed (2 ^ 7) plan compile-patch

compile-IsMultirate_example : IsMultirate patch plan
compile-IsMultirate_example = compile-IsMultirate patch 6 patch-IsWellFormed plan compile-patch

-- The upsampler reads 64 samples of the oscillator in each of its two calls.
compile_slices_example :
    (stride_of plan 3 / calls_of plan 1 ≡ 64) × (calls_of plan 1 * 64 ≡ stride_of plan 3)
unfolding plan
compile_slices_example =
    compile_slices patch 6 plan 2 64 (link 3 1) up2 patch-IsWellFormed compile-patch refl refl
      (omega arith) (omega arith) refl

compile-OutputsApart_example : OutputsApart patch plan
unfolding plan demand
compile-OutputsApart_example =
    compile-OutputsApart patch 6 patch-IsWellFormed plan compile-patch (omega arith)

compile-StatesApart_example : StatesApart patch plan
unfolding plan padded
compile-StatesApart_example =
    compile-StatesApart patch (2 ^ 7) plan compile-patch
      (
        (3, omega arith, refl),
        ((2, omega arith, refl), ((3, omega arith, refl), ((3, omega arith, refl), tt))),
      )
      (omega arith)

compile-IsWired_example : IsWired patch plan
compile-IsWired_example = compile-IsWired patch patch-IsWellFormed (2 ^ 7) plan compile-patch

steady_patch-IsWellFormed : IsWellFormed steady_patch
unfolding steady_patch
steady_patch-IsWellFormed =
    built-IsWellFormed (adds oscillator ∷ adds gain ∷ connects (link 0 1) ∷ [])

steady_patch-IsPlain : All IsPlain steady_patch.nodes
unfolding steady_patch
steady_patch-IsPlain = omega arith

compile_plain_iff_example :
    ((s : CompiledSchedule ℕ) × (compile steady_patch (2 ^ 7) ≡ some s))
    ↔ ((rank : ℕ → ℕ) × IsRanked rank (edges steady_patch))
compile_plain_iff_example =
    compile_plain_iff steady_patch 7 steady_patch-IsWellFormed steady_patch-IsPlain (omega arith)
