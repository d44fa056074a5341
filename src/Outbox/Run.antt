-- ===== src/Outbox/Run.antt =====
-- internal/outbox/outbox.go: the calls of the queue one after another, as its loop and its callers make them.
pub mod Settled
use teploy_dash.Common.{ℕ, String, true, some, List, [], ◌∷◌, ◌≡◌, ◌↔◌, refl, lookup, string_eq}
use teploy_dash.Alert.{Alert}
use teploy_dash.Alert.Channels.{contains}
use teploy_dash.Outbox.{Record, Outbox, Options, is_pending}
use teploy_dash.Outbox.Journal.{replay, load}
use teploy_dash.Outbox.Journal.Edit.{Durable}
use teploy_dash.Outbox.Send.{Source, send, record_suppressed}
use teploy_dash.Outbox.Send.Durable.{send-Durable, record_suppressed-Durable}
use teploy_dash.Outbox.Attempt.{Turn, attempt, deliver_due}
use teploy_dash.Outbox.Attempt.Durable.{attempt-Durable, deliver_due-Durable}

-- A call, with what it meets. `tries` is one attempt on a snapshot that may be out of date.
pub data Call : Type 0 where
  sends : Source → String → Alert → ℕ → Call
  suppresses : String → Alert → String → ℕ → Call
  tries : Turn → Record → Call
  delivers : ℕ → (String → Turn) → Call

pub act : Options → Call → Outbox → Outbox
act o (sends config id e now) b = send o config id e now b
act o (suppresses id e note now) b = record_suppressed o id e note now b
act o (tries w snap) b = attempt o w snap b
act o (delivers now world) b = deliver_due o now world b

unfoldable pub play : Options → List Call → Outbox → Outbox
unfolding act
play o [] b = b
play o (c ∷ cs) b = play o cs (act o c b)

act-Durable : (o : Options) (c : Call) (b : Outbox) → Durable b → Durable (act o c b)
unfolding act
act-Durable o (sends config id e now) b h = send-Durable o config id e now b h
act-Durable o (suppresses id e note now) b h = record_suppressed-Durable o id e note now b h
act-Durable o (tries w snap) b h = attempt-Durable o w snap b h
act-Durable o (delivers now world) b h = deliver_due-Durable o now world b h

play-Durable : (o : Options) (cs : List Call) (b : Outbox) → Durable b → Durable (play o cs b)
unfolding play
play-Durable o [] b h = h
play-Durable o (c ∷ cs) b h = play-Durable o cs (act o c b) (act-Durable o c b h)

new-Durable : Durable (load [] [])
unfolding load replay lookup
new-Durable = record {
  restorable = record {
    keyed = λ k r l. cc;
    ordered = λ k r l. cc;
    written = λ k r l n. l;
    unfinished = λ k r l p n. l;
  };
  unique = tt;
  healthy = refl;
}

-- In any sequence of calls that starts with an empty journal and in which no write fails, the records
-- that a restart finds waiting in the journal are exactly those that wait in memory, as they are
-- there: no alert that waits is lost, and none that has been settled is sent again.
pub play-load :
    (o : Options) (cs : List Call) (id : String) (r : Record)
    → is_pending r.status ≡ true
    → (lookup id (play o cs (load [] [])).records ≡ some r)
      ↔ (lookup id (load (play o cs (load [] [])).journal []).records ≡ some r)
unfolding load contains
play-load o cs id r p =
    let h = (play-Durable o cs (load [] []) new-Durable).restorable in
    (λ l. h.written id r l refl, λ l. h.unfinished id r l p refl)

-- In any such sequence of calls, a restart finds every record that is in memory, settled or not, as
-- it is there.
pub play-written :
    (o : Options) (cs : List Call) (id : String) (r : Record)
    → lookup id (play o cs (load [] [])).records ≡ some r
    → lookup id (load (play o cs (load [] [])).journal []).records ≡ some r
unfolding load contains
play-written o cs id r l =
    (play-Durable o cs (load [] []) new-Durable).restorable.written id r l refl
