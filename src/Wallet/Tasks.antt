-- ===== src/Wallet/Tasks.antt =====
-- masswallet/task.go, and the worker of masswallet/ntfnshandler.go: the channel of imports and
-- removals that wait, with the goroutine that works them off and the calls that add to it.
pub mod Kept
use mass_net_wallet.Prelude.{
  ℕ, zero, suc, ◌+◌, ◌≡◌, Bool, true, false, Option, none, some, List, [], ◌∷◌, ◌++◌, ltb, leb,
  if◌then◌else◌, length,
}
use mass_net_wallet.Prelude.Bytes.{Bytes}
use mass_net_wallet.Txmgr.{WalletStatus, ready, is_removed}

abbrev pub max_waiting_task_num : ℕ
max_waiting_task_num = 3

-- WalletTaskImport and WalletTaskRemove, 1 and 2
pub data TaskType : Type 0 where
  import_task remove_task : TaskType

pub record WalletTask : Type 0 where
  pub task_type : TaskType
  pub wallet_id : Bytes

-- WalletTaskChan: what the buffered channel holds, the oldest first, and its size
pub record WalletTaskChan : Type 0 where
  pub size : ℕ
  pub waiting : List WalletTask

unfoldable pub new_wallet_task_chan : ℕ → WalletTaskChan
new_wallet_task_chan size = record {
  size = if ltb size (max_waiting_task_num + 1) then max_waiting_task_num + 1 else size;
  waiting = [];
}

unfoldable pub is_busy : WalletTaskChan → Bool
is_busy c = leb max_waiting_task_num (length c.waiting)

-- select { case c.C <- task: default: }
unfoldable pub push : WalletTask → WalletTaskChan → WalletTaskChan
push t c = if ltb (length c.waiting) c.size then record c { waiting = c.waiting ++ (t ∷ []) } else c

unfoldable pub push_import : Bytes → WalletTaskChan → WalletTaskChan
unfolding push
push_import wallet_id c = push (record { task_type = import_task; wallet_id = wallet_id }) c

unfoldable pub push_remove : Bytes → WalletTaskChan → WalletTaskChan
unfolding push
push_remove wallet_id c = push (record { task_type = remove_task; wallet_id = wallet_id }) c

-- a round of the loop over the statuses that the worker begins with
unfoldable pub restart : WalletStatus → WalletTaskChan → WalletTaskChan
unfolding push_import push_remove
restart ws c =
    if is_removed ws
    then push_remove ws.wallet_id c
    else if ready ws
    then c
    else push_import ws.wallet_id c

-- The channel, the statuses that the loop has yet to go through, the task that the worker has
-- received, and the task of a call that has found the worker not busy and has yet to push it; such
-- calls hold the wallet manager's lock.
pub record Worker : Type 0 where
  pub chan : WalletTaskChan
  pub restarting : List WalletStatus
  pub running : Option WalletTask
  pub calling : Option WalletTask

-- The worker when it has made its channel. Before that taskChan is nil, and a call that reads it
-- panics.
unfoldable pub start_worker : List WalletStatus → Worker
unfolding new_wallet_task_chan
start_worker wss = record {
  chan = new_wallet_task_chan (length wss);
  restarting = wss;
  running = none;
  calling = none;
}

-- What the worker and the calls do, in any order: calls come while the loop is still at work.
pub data Step : Worker → Worker → Type 0 where
  restarted :
      {w : Worker} {ws : WalletStatus} {wss : List WalletStatus}
      → w.restarting ≡ ws ∷ wss
      → Step w (record {
        chan = restart ws w.chan;
        restarting = wss;
        running = w.running;
        calling = w.calling;
      })
  -- task := <-h.taskChan.C, once the loop is over
  received :
      {w : Worker} {t : WalletTask} {rest : List WalletTask}
      → w.restarting ≡ []
      → w.running ≡ none
      → w.chan.waiting ≡ t ∷ rest
      → Step w (record {
        chan = record { size = w.chan.size; waiting = rest };
        restarting = w.restarting;
        running = some t;
        calling = w.calling;
      })
  -- a task that is finished, or given up
  finished : {w : Worker} → Step w (record w { running = none })
  -- a task that is to be tried again
  retried :
      {w : Worker} {t : WalletTask}
      → w.running ≡ some t
      → Step w (record {
        chan = push t w.chan;
        restarting = w.restarting;
        running = none;
        calling = w.calling;
      })
  -- ImportWallet, ImportWalletWithMnemonic and RemoveWallet, past their test of IsWorkerBusy
  called :
      {w : Worker} {t : WalletTask}
      → w.calling ≡ none
      → is_busy w.chan ≡ false
      → Step w (record w { calling = some t })
  -- one of these that fails, or has nothing to import
  returned : {w : Worker} → Step w (record w { calling = none })
  -- OnImportWallet and OnRemoveWallet
  pushed :
      {w : Worker} {t : WalletTask}
      → w.calling ≡ some t
      → Step w (record {
        chan = push t w.chan;
        restarting = w.restarting;
        running = w.running;
        calling = none;
      })

-- what steps lead to from `v`
pub data Reachable (v : Worker) : Worker → Type 0 where
  here : Reachable v v
  stepped : {u w : Worker} → Reachable v u → Step u w → Reachable v w
