-- ===== src/Tests/Keymanager.antt =====
-- The properties of the key manager at concrete inputs.
use azath.Prelude.{ok, err, replicate, ◌≡◌, refl, ◌⊎◌, false, List, [], ◌∷◌}
use azath.Keymanager.{
  commit, check_source, check_state, unloaded, SourceResult, key_destroyed, key_copy, load, destroy,
  new,
}
use azath.Keymanager.Lifecycle.{
  Action, loads, destroys, run, new-Inv, IsTerminal, destroy-IsTerminal, key_stable,
}
use azath.Tests.Fixtures.{toy, master_key}

abbrev good_source : SourceResult
good_source = record { raw = master_key; fails = false }

abbrev late_source : SourceResult
late_source = record { raw = replicate 32 4; fails = false }

-- Two loads that both saw an unloaded manager, and a Destroy.
abbrev race : List Action
race = loads unloaded good_source ∷ loads unloaded late_source ∷ destroys ∷ []

destroy-IsTerminal_example : IsTerminal toy (run (destroy new) race)
destroy-IsTerminal_example = destroy-IsTerminal toy new race new-Inv

key_stable_example :
    (key_copy (run (load unloaded good_source new).manager (loads unloaded late_source ∷ []))
      ≡ ok master_key)
    ⊎ (key_copy (run (load unloaded good_source new).manager (loads unloaded late_source ∷ []))
        ≡ err key_destroyed)
key_stable_example =
    key_stable unloaded good_source new (loads unloaded late_source ∷ [])
      (unfold new load check_state check_source commit in refl)
