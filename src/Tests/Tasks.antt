-- ===== src/Tests/Tasks.antt =====
-- The worker's channel at a concrete run: one wallet is to be removed, and a call then imports another.
use mass_net_wallet.Prelude.{◌≡◌, refl, some, [], ◌∷◌, inr}
use mass_net_wallet.Txmgr.{WalletStatus, ready, is_removed}
use mass_net_wallet.Wallet.Tasks.{
  WalletTask, import_task, remove_task, push, push_import, push_remove, new_wallet_task_chan,
  Worker, start_worker, restart, is_busy, Reachable, here, stepped, restarted, called,
}
use mass_net_wallet.Wallet.Tasks.Kept.{IsSettled, push-Reachable}

abbrev removed : WalletStatus
removed = record { wallet_id = 1 ∷ []; synced_height = 0; flags = 1 }

abbrev import_b : WalletTask
import_b = record { task_type = import_task; wallet_id = 2 ∷ [] }

abbrev restarted_worker : Worker
restarted_worker = record (start_worker (removed ∷ [])) {
  chan = restart removed (start_worker (removed ∷ [])).chan;
  restarting = [];
}

restarted_worker-Reachable : Reachable (start_worker (removed ∷ [])) restarted_worker
unfolding start_worker
restarted_worker-Reachable = stepped here (restarted refl)

restarted_worker-IsSettled : IsSettled restarted_worker
unfolding start_worker
restarted_worker-IsSettled = record { over = refl; idle = refl; free = refl }

abbrev calling : Worker
calling = record restarted_worker { calling = some import_b }

calling-Reachable : Reachable restarted_worker calling
unfolding start_worker restart is_busy push_import push_remove push new_wallet_task_chan ready
    is_removed
calling-Reachable = stepped here (called refl refl)

push-Reachable_example :
    (push import_b calling.chan).waiting
    ≡ record { task_type = remove_task; wallet_id = 1 ∷ [] } ∷ (import_b ∷ [])
unfolding start_worker restart push_import push_remove push new_wallet_task_chan ready is_removed
push-Reachable_example =
    push-Reachable (removed ∷ []) calling import_b restarted_worker-Reachable
      restarted_worker-IsSettled calling-Reachable (inr refl)
