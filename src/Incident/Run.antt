-- ===== src/Incident/Run.antt =====
-- internal/incident/incident.go: calls on a tracker, in any order.
use teploy_dash.Common.{ℕ, String, Bool, List, [], ◌∷◌, ◌++◌, All}
use teploy_dash.Incident.{Rule, Incident, Sample, Tracker, Turn, Outgoing}
use teploy_dash.Incident.Observe.{observe, retire}
use teploy_dash.Incident.Observe.Batch.{
  adopt_open, adopt_failing, seed, close_matching, sweep, release_holds,
}
use teploy_dash.Incident.Observe.Answered.{Fair, Told, IsAnswered, silent}
use teploy_dash.Incident.Observe.Answered.Rules.{observe-IsAnswered, retire-IsAnswered}
use teploy_dash.Incident.Observe.Answered.Batches.{
  close_matching-IsAnswered, sweep-IsAnswered, adopt_open-Fair, adopt_failing-Fair, seed-Fair,
  release_holds-IsAnswered,
}

pub data Call : Type 0 where
  observes : Turn → Rule → Bool → ℕ → String → Call
  retires : Turn → String → String → Call
  adopts : Turn → Rule → ℕ → ℕ → String → Call
  adopts_failing : Turn → Rule → ℕ → String → Call
  seeds : Rule → List Sample → Call
  closes : Turn → (Incident → Bool) → String → String → Call
  sweeps : Turn → Call
  releases : Turn → Call

unfoldable pub act : Call → Tracker → Tracker × List Outgoing
act (observes w rule ok at message) t = observe w rule ok at message t
act (retires w key message) t = retire w key message t
act (adopts w rule started fails message) t = (adopt_open w rule started fails message t, [])
act (adopts_failing w rule started message) t = ((adopt_failing w rule started message t).0, [])
act (seeds rule history) t = (seed rule history t, [])
act (closes w p reason message) t = close_matching w p reason message t
act (sweeps w) t = sweep w t
act (releases w) t = release_holds w t

-- The tracker after the calls, and all that it handed over, `log` included.
unfoldable pub play : List Call → Tracker → List Outgoing → Tracker × List Outgoing
play [] t log = (t, log)
play (c ∷ cs) t log = play cs (act c t).0 (log ++ (act c t).1)

act-IsAnswered :
    (c : Call) (t : Tracker) (log : List Outgoing)
    → All (Fair log) t.incidents
    → IsAnswered log (act c t)
unfolding act
act-IsAnswered (observes w rule ok at message) t log h =
    observe-IsAnswered w log rule ok at message t h
act-IsAnswered (retires w key message) t log h = retire-IsAnswered w log key message t h
act-IsAnswered (adopts w rule started fails message) t log h =
    silent (adopt_open w rule started fails message t) log
      (adopt_open-Fair w log rule started fails message t h)
act-IsAnswered (adopts_failing w rule started message) t log h =
    silent (adopt_failing w rule started message t).0 log
      (adopt_failing-Fair w log rule started message t h)
act-IsAnswered (seeds rule history) t log h =
    silent (seed rule history t) log (seed-Fair log rule history t h)
act-IsAnswered (closes w p reason message) t log h =
    close_matching-IsAnswered w log p reason message t h
act-IsAnswered (sweeps w) t log h = sweep-IsAnswered w log t h
act-IsAnswered (releases w) t log h = release_holds-IsAnswered w log t h

-- After any calls on a tracker whose announced incidents were announced, and then one call more:
-- every recovery that this call sends is for an incident whose opening was sent before it.
pub play-Told :
    (cs : List Call) (c : Call) (t : Tracker) (log : List Outgoing)
    → All (Fair log) t.incidents
    → All (Told (play cs t log).1) (act c (play cs t log).0).1
unfolding play
play-Told [] c t log h = (act-IsAnswered c t log h).told
play-Told (d ∷ cs) c t log h =
    play-Told cs c (act d t).0 (log ++ (act d t).1) (act-IsAnswered d t log h).fair
