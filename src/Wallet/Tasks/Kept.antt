-- ===== src/Wallet/Tasks/Kept.antt =====
-- masswallet/task.go: the tasks that are pushed once the worker has settled.
use mass_net_wallet.Prelude.{
  ℕ, suc, ◌+◌, ◌≤◌, ◌<◌, ◌≡◌, ap, ◌⊎◌, inl, inr, Bool, true, false, Option, none, some, List, [],
  ◌∷◌, ◌++◌, arith, if◌then◌else◌, length, length-append,
}
use mass_net_wallet.Txmgr.{WalletStatus, ready, is_removed}
use mass_net_wallet.Wallet.Tasks.{
  WalletTask, WalletTaskChan, new_wallet_task_chan, is_busy, push, push_import, push_remove,
  restart, Worker, start_worker, Step, restarted, received, finished, retried, called, returned,
  pushed, Reachable, here, stepped,
}

-- how many tasks are held
abbrev held : Option WalletTask → ℕ
held none = 0
held (some t) = 1

-- The statuses are gone through, and there is room for the tasks that the worker and a call hold.
pub record IsRoomy (w : Worker) : Type 0 where
  pub over : w.restarting ≡ []
  pub large : 4 ≤ w.chan.size
  pub room : length w.chan.waiting + held w.running + held w.calling ≤ w.chan.size

push-length :
    (t : WalletTask) (c : WalletTaskChan) → length (push t c).waiting ≤ suc (length c.waiting)
unfolding push
push-length t c = ground (arith, length-append c.waiting (t ∷ []))

push-size : (t : WalletTask) (c : WalletTaskChan) → (push t c).size ≡ c.size
unfolding push
push-size t c = ground arith

push_kept :
    (t : WalletTask) (c : WalletTaskChan)
    → length c.waiting < c.size
    → (push t c).waiting ≡ c.waiting ++ (t ∷ [])
unfolding push
push_kept t c h = ground arith

push_bound :
    (t : WalletTask) (c : WalletTaskChan)
    → length c.waiting ≤ c.size
    → length (push t c).waiting ≤ c.size
unfolding push
push_bound t c h = ground (arith, length-append c.waiting (t ∷ []))

-- a channel for four tasks at least, that holds no more than fit
abbrev Fits : WalletTaskChan → Type 0
Fits c = (4 ≤ c.size) × (length c.waiting ≤ c.size)

push-Fits : (t : WalletTask) (c : WalletTaskChan) → Fits c → Fits (push t c)
push-Fits t c h =
    (omega (arith, h.0, push-size t c), omega (arith, push-size t c, push_bound t c h.1))

if-Fits : (b : Bool) (c d : WalletTaskChan) → Fits c → Fits d → Fits (if b then c else d)
if-Fits true c d h k = h
if-Fits false c d h k = k

restart-Fits : (ws : WalletStatus) (c : WalletTaskChan) → Fits c → Fits (restart ws c)
unfolding restart push_import push_remove
restart-Fits ws c h =
    if-Fits (is_removed ws) _ _ (push-Fits _ c h) (if-Fits (ready ws) _ _ h (push-Fits _ c h))

start_worker-Fits : (wss : List WalletStatus) → Fits (start_worker wss).chan
unfolding start_worker new_wallet_task_chan
start_worker-Fits wss = (ground arith, ground arith)

Step-Fits : {v w : Worker} → Step v w → Fits v.chan → Fits w.chan
Step-Fits (restarted {w} {ws} e) h = restart-Fits ws w.chan h
Step-Fits (received {w} o e f) h = (h.0, omega (arith, h.1, ap length f))
Step-Fits (finished {w}) h = h
Step-Fits (retried {w} {t} e) h = push-Fits t w.chan h
Step-Fits (called {w} e f) h = h
Step-Fits (returned {w}) h = h
Step-Fits (pushed {w} {t} e) h = push-Fits t w.chan h

Reachable-Fits : {v w : Worker} → Reachable v w → Fits v.chan → Fits w.chan
Reachable-Fits here h = h
Reachable-Fits (stepped r s) h = Step-Fits s (Reachable-Fits r h)

held_le : (o : Option WalletTask) → held o ≤ 1
held_le none = omega arith
held_le (some t) = omega arith

-- A call passes the test of IsBusy where at most two tasks wait.
called_room :
    (w : Worker)
    → is_busy w.chan ≡ false
    → IsRoomy w
    → length w.chan.waiting + held w.running + 1 ≤ w.chan.size
unfolding is_busy
called_room w f v =
    let few : length w.chan.waiting < 3 = ground arith in omega (arith, held_le w.running, v.large)

[]-ne-cons :
    {ws : WalletStatus} {wss rest : List WalletStatus} {P : Type 0}
    → rest ≡ []
    → rest ≡ ws ∷ wss
    → P
[]-ne-cons e f = grind arith

Step-IsRoomy : {v w : Worker} → Step v w → IsRoomy v → IsRoomy w
Step-IsRoomy (restarted {w} e) v = []-ne-cons v.over e
Step-IsRoomy (received {w} o e f) v = record {
  over = v.over;
  large = v.large;
  room = omega (arith, v.room, ap held e, ap length f);
}
Step-IsRoomy (finished {w}) v = record {
  over = v.over;
  large = v.large;
  room = omega (arith, v.room);
}
Step-IsRoomy (retried {w} {t} e) v = record {
  over = v.over;
  large = omega (arith, v.large, push-size t w.chan);
  room = omega (arith, v.room, ap held e, push-length t w.chan, push-size t w.chan);
}
Step-IsRoomy (called {w} {t} e f) v = record {
  over = v.over;
  large = v.large;
  room = called_room w f v;
}
Step-IsRoomy (returned {w}) v = record {
  over = v.over;
  large = v.large;
  room = omega (arith, v.room);
}
Step-IsRoomy (pushed {w} {t} e) v = record {
  over = v.over;
  large = omega (arith, v.large, push-size t w.chan);
  room = omega (arith, v.room, ap held e, push-length t w.chan, push-size t w.chan);
}

Reachable-IsRoomy : {v w : Worker} → Reachable v w → IsRoomy v → IsRoomy w
Reachable-IsRoomy here h = h
Reachable-IsRoomy (stepped r s) h = Step-IsRoomy s (Reachable-IsRoomy r h)

-- The worker has gone through its statuses, has no task in hand, and no call is past its test.
pub record IsSettled (w : Worker) : Type 0 where
  pub over : w.restarting ≡ []
  pub idle : w.running ≡ none
  pub free : w.calling ≡ none

IsSettled-IsRoomy : (w : Worker) → Fits w.chan → IsSettled w → IsRoomy w
IsSettled-IsRoomy w h s = record {
  over = s.over;
  large = h.0;
  room = omega (arith, h.1, ap held s.idle, ap held s.free);
}

-- Once the worker has gone through the statuses that it starts with, has no task in hand, and no
-- call is between its test of IsBusy and its push, then in every state that the worker and the
-- calls reach from there, in any order of their steps, pushing a task that the worker has in hand,
-- or a call past its test, adds it at the end of the channel: none is dropped.
pub push-Reachable :
    (wss : List WalletStatus) {v : Worker} (w : Worker) (t : WalletTask)
    → Reachable (start_worker wss) v
    → IsSettled v
    → Reachable v w
    → (w.running ≡ some t) ⊎ (w.calling ≡ some t)
    → (push t w.chan).waiting ≡ w.chan.waiting ++ (t ∷ [])
push-Reachable wss {v} w t started s r h =
    let fits = Reachable-Fits started (start_worker-Fits wss) in
    let roomy = Reachable-IsRoomy r (IsSettled-IsRoomy v fits s) in
    elim h [
      | inl e ↦ push_kept t w.chan (omega (arith, roomy.room, ap held e))
      | inr e ↦ push_kept t w.chan (omega (arith, roomy.room, ap held e))
    ]
