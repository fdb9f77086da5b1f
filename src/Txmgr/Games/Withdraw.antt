-- ===== src/Txmgr/Games/Withdraw.antt =====
-- A history is moved between the withdrawn and the others, and back.
use mass_net_wallet.Prelude.{
  ℕ, suc, ◌+◌, ◌<◌, ◌≡◌, ◌≢◌, refl, sym, ap, ◌∙◌, Bool, true, false, Option, none, some, ◌++◌,
  arith, ◌==◌, length, get_or, length-append,
}
use mathlib.Core.Path.{subst}
use mass_net_wallet.Prelude.Bytes.{Bytes, put_be}
use mass_net_wallet.Prelude.Exec.{ok, err, not_found, ◌>>=◌}
use mass_net_wallet.Db.{Bucket, IsBucket}
use mass_net_wallet.Db.Rules.{get-put_self, get-put_ne, get-delete_self, get-delete_ne}
use mass_net_wallet.Txmgr.{GameHistory}
use mass_net_wallet.Txmgr.Games.{
  bit, game_prefix, key_game_history, value_game_history, set_withdrawn, stored_length, move_game,
  withdraw_game, unwithdraw_game,
}
use mass_net_wallet.Txmgr.Games.Laws.{length-game_prefix, get_or-withdrawn}

key_with : Bool → GameHistory → Bytes
unfolding set_withdrawn
key_with w g = key_game_history (set_withdrawn w g)

flag-key_with : (w : Bool) (g : GameHistory) → get_or (key_with w g) 43 0 ≡ bit w
unfolding key_with key_game_history set_withdrawn
flag-key_with w g = get_or-withdrawn g w (g.tx_hash ++ (put_be 8 g.block_height ++ put_be 4 g.vout))

key_with-ne : (g : GameHistory) → key_with true g ≢ key_with false g
key_with-ne g e =
    let bits : bit true ≡ bit false =
      sym (flag-key_with true g) ∙ ap (λ (t : Bytes). get_or t 43 0) e ∙ flag-key_with false g in
    unfold bit in omega (arith, bits)

length-key_with : (w : Bool) (g : GameHistory) → 0 < length (key_with w g)
unfolding key_with key_game_history set_withdrawn
length-key_with w g =
    let rest = g.tx_hash ++ (put_be 8 g.block_height ++ put_be 4 g.vout) in
    omega (arith, length-append (game_prefix g w) rest, length-game_prefix g w rest)

module _ {S : Type 0} (ns : Bucket S) {Ready : ℕ → S → Type 0} (laws : IsBucket ns Ready)
    (g : GameHistory) where
  move_game_lem :
      (n : ℕ) (old new : Bool) (s : S) {v : Bytes} {o : Option Bytes}
      → Ready (suc (suc n)) s
      → key_with old g ≢ key_with new g
      → ns.get (key_with old g) s ≡ ok (some v)
      → 0 < length v
      → ns.get (key_with new g) s ≡ ok o
      → ((move_game ns old new g s).0 ≡ ok tt)
        × Ready n (move_game ns old new g s).1
        × (ns.get (key_with old g) (move_game ns old new g s).1 ≡ ok none)
        × (ns.get (key_with new g) (move_game ns old new g s).1 ≡ ok (some value_game_history))
  unfolding move_game key_with stored_length ◌>>=◌
  move_game_lem n old new s {v} {o} r apart found long target =
      let from = key_with old g in
      let to = key_with new g in
      let s1 = (ns.delete from s).1 in
      let (deleted, ready) = laws.delete_lem (suc n) from s r in
      let pos = length-key_with new g in
      let (done, ready2) = laws.put_lem n to value_game_history s1 ready pos (omega arith) in
      let some_bytes : (length v == 0) ≡ false = ground arith in
      let target1 = get-delete_ne ns laws (suc n) from s to r apart ∙ target in
      rw (found, some_bytes, deleted)
        (
          done,
          ready2,
          get-put_ne ns laws n to s1 value_game_history from ready pos (omega arith)
                (λ e. apart (sym e))
              ∙ get-delete_self ns laws (suc n) from s r found,
          get-put_self ns laws n to s1 value_game_history ready pos (omega arith) target1,
        )

  -- In a ready store that has a history not withdrawn, withdrawGame succeeds and moves the entry
  -- to the withdrawn key, and unwithdrawGame then succeeds and moves it back.
  pub unwithdraw-withdraw_game :
      (n : ℕ) (s : S) {v : Bytes} {o : Option Bytes}
      → Ready (4 + n) s
      → ns.get (key_game_history (set_withdrawn false g)) s ≡ ok (some v)
      → 0 < length v
      → ns.get (key_game_history (set_withdrawn true g)) s ≡ ok o
      → ((withdraw_game ns g s).0 ≡ ok tt)
        × (ns.get (key_game_history (set_withdrawn true g)) (withdraw_game ns g s).1
            ≡ ok (some value_game_history))
        × (ns.get (key_game_history (set_withdrawn false g)) (withdraw_game ns g s).1 ≡ ok none)
        × ((unwithdraw_game ns g (withdraw_game ns g s).1).0 ≡ ok tt)
        × (ns.get
              (key_game_history (set_withdrawn false g))
              (unwithdraw_game ns g (withdraw_game ns g s).1).1
            ≡ ok (some value_game_history))
        × (ns.get
              (key_game_history (set_withdrawn true g))
              (unwithdraw_game ns g (withdraw_game ns g s).1).1
            ≡ ok none)
  unfolding withdraw_game unwithdraw_game key_with
  unwithdraw-withdraw_game n s r found long target =
      let r' : Ready (suc (suc (2 + n))) s = subst (λ (m : ℕ). Ready m s) (omega arith) r in
      let (a, b, c, d) =
        move_game_lem (2 + n) false true s r' (λ e. key_with-ne g (sym e)) found long target in
      let s1 = (move_game ns false true g s).1 in
      let b' : Ready (suc (suc n)) s1 = subst (λ (m : ℕ). Ready m s1) (omega arith) b in
      let (e, _, f, h) = move_game_lem n true false s1 b' (key_with-ne g) d (omega arith) c in
      (a, d, c, e, h, f)

-- Where the store has no such history, withdrawGame fails and writes nothing.
pub withdraw_game_missing :
    {S : Type 0} (ns : Bucket S) (g : GameHistory) (s : S)
    → ns.get (key_game_history (set_withdrawn false g)) s ≡ ok none
    → withdraw_game ns g s ≡ (err not_found, s)
unfolding withdraw_game move_game stored_length
withdraw_game_missing ns g s e = rw e refl
