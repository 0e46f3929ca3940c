-- ===== src/Fetcher/Sound/Reached.antt =====
-- The invariant in the worlds that are reached.
use ultrasight.Common.{ℕ}
use ultrasight.Machine.{Env}
use ultrasight.Fetcher.World.{World}
use ultrasight.Fetcher.Steps.{Step, by_fetcher, by_main, by_child, Steps, stay, ◌◅◌}
use ultrasight.Fetcher.Sound.{IsSound}
use ultrasight.Fetcher.Sound.Worker.{fetcher-IsSound}
use ultrasight.Fetcher.Sound.Parent.{main-IsSound, child-IsSound}

pub Step-IsSound :
    {env : Env} {fuel threshold : ℕ} {w v : World}
    → Step env fuel threshold w v
    → IsSound w
    → IsSound v
Step-IsSound (by_fetcher w v x) i = fetcher-IsSound x i
Step-IsSound (by_main w v x) i = main-IsSound x i
Step-IsSound (by_child w v x) i = child-IsSound x i

pub Steps-IsSound :
    {env : Env} {fuel threshold : ℕ} {w v : World}
    → Steps env fuel threshold w v
    → IsSound w
    → IsSound v
Steps-IsSound (stay w) i = i
Steps-IsSound (x ◅ xs) i = Steps-IsSound xs (Step-IsSound x i)
