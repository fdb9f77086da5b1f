-- ===== src/Txmgr/Store/Totals.antt =====
-- The balances after a mined transaction's outputs are added (AddCredits).
use mass_net_wallet.Prelude.{
  ℕ, ◌+◌, ◌≡◌, refl, ap, ◌∙◌, true, false, List, [], ◌∷◌, arith, if◌then◌else◌, Bool-cases, inl,
  inr,
}
use mass_net_wallet.Prelude.Bytes.{Bytes, bytes_eq, bytes_eq_iff}
use mass_net_wallet.Prelude.Exec.{Result, ok, err, Exec}
use mass_net_wallet.Prelude.Keeps.{
  Keeps, Leads, Leads-Keeps, Leads-bind, Leads-lift, Leads-pure, for_with,
}
use mass_net_wallet.Db.{Bucket}
use mass_net_wallet.Txmgr.{BlockMeta}
use mass_net_wallet.Txmgr.Balances.{Balance}
use mass_net_wallet.Txmgr.Store.{
  Namespace, RelevantMeta, TxRecord, TxOut, Outside, at, balance_of, set_balance,
}
use mass_net_wallet.Txmgr.Store.Utxo.{add_credit, add_mined_credits}
use mass_net_wallet.Wallet.Money.{IsMoney}

balance_of-set_balance :
    {A : Type 0} (z a : A) (u w : Bytes) (bs : List (Balance A))
    → balance_of z w (set_balance u a bs) ≡ (if bytes_eq u w then a else balance_of z w bs)
unfolding balance_of set_balance
balance_of-set_balance z a u w [] = refl
balance_of-set_balance z a u w (b ∷ bs) = ground (
  arith,
  balance_of-set_balance z a u w bs,
  bytes_eq_iff b.wallet_id u,
  bytes_eq_iff b.wallet_id w,
  bytes_eq_iff u w,
)

const-Keeps : {S B F : Type 0} (m : Exec S B) → Keeps (λ _. F) m
const-Keeps m = record { run = λ s h. h }

module _ {M A : Type 0} (outside : Outside M A) where
  -- the value of an output, 0 where there is none
  value_or_zero : Result A → ℕ
  value_or_zero (ok a) = outside.money.int_value a
  value_or_zero (err e) = 0

  output_value : Result TxOut → ℕ
  unfolding value_or_zero
  output_value (ok o) = value_or_zero (outside.amount_from_int o.value)
  output_value (err e) = 0

  -- What the outputs of a transaction pay to a wallet.
  unfoldable pub paid_to : Bytes → M → List RelevantMeta → ℕ
  unfolding output_value
  paid_to w msg [] = 0
  paid_to w msg (rel ∷ rels) =
      (if bytes_eq rel.wallet_id w then output_value (at (outside.tx_out msg) rel.index) else 0)
      + paid_to w msg rels

  unfoldable pub value_in : Bytes → List (Balance A) → ℕ
  value_in w bs = outside.money.int_value (balance_of outside.money.zero_amount w bs)

  module _ (w u : Bytes) (a : A) (bs : List (Balance A)) where
    value_in-set_balance_self :
        bytes_eq u w ≡ true → value_in w (set_balance u a bs) ≡ outside.money.int_value a
    unfolding value_in
    value_in-set_balance_self e =
        ap outside.money.int_value
          (balance_of-set_balance outside.money.zero_amount a u w bs ∙ rw e refl)

    value_in-set_balance_ne : bytes_eq u w ≡ false → value_in w (set_balance u a bs) ≡ value_in w bs
    unfolding value_in
    value_in-set_balance_ne e =
        ap outside.money.int_value
          (balance_of-set_balance outside.money.zero_amount a u w bs ∙ rw e refl)

  Round : TxRecord M → Bytes → RelevantMeta → List (Balance A) → List (Balance A) → Type 0
  Round rec w rel bs bs' = value_in w bs' ≡ value_in w bs + paid_to w rec.msg_tx (rel ∷ [])

  round_lem :
      {max_amount : ℕ} (money : IsMoney outside.money max_amount) (rec : TxRecord M) (w : Bytes)
      (rel : RelevantMeta) (bs : List (Balance A)) (o : TxOut) (a b : A)
      → at (outside.tx_out rec.msg_tx) rel.index ≡ ok o
      → outside.amount_from_int o.value ≡ ok a
      → outside.money.add (balance_of outside.money.zero_amount rel.wallet_id bs) a ≡ ok b
      → Round rec w rel bs (set_balance rel.wallet_id b bs)
  unfolding Round paid_to output_value value_or_zero
  round_lem money rec w rel bs o a b p q r =
      let more : outside.money.int_value b ≡ value_in rel.wallet_id bs + outside.money.int_value a =
        unfold value_in in (money.add_inv _ _ _ r).0 in
      elim (Bool-cases (bytes_eq rel.wallet_id w)) [
        | inl e ↦
            rw (e, p, q)
              (omega (
                arith,
                more,
                value_in-set_balance_self w rel.wallet_id b bs e,
                ap (λ (x : Bytes). value_in x bs) ((bytes_eq_iff rel.wallet_id w).0 e),
              ))
        | inr e ↦ rw e (omega (arith, value_in-set_balance_ne w rel.wallet_id b bs e))
      ]

  module _ {S : Type 0} {max_amount : ℕ} (money : IsMoney outside.money max_amount)
      (fetch_bucket : Namespace → Bucket S) (rec : TxRecord M) (block : BlockMeta) (w : Bytes) where
    add_credit-Leads :
        (rel : RelevantMeta) (bs : List (Balance A))
        → Leads
            (λ _. Unit {0})
            (add_credit outside fetch_bucket rec block rel bs)
            (λ bs' _. Round rec w rel bs bs')
    unfolding add_credit
    add_credit-Leads rel bs = Leads-bind (Leads-Keeps (const-Keeps _)) (λ found.
        Leads-bind (Leads-Keeps (const-Keeps _)) (λ _.
          Leads-bind (Leads-Keeps (const-Keeps _)) (λ _.
            Leads-bind {Q = λ o _. at (outside.tx_out rec.msg_tx) rel.index ≡ ok o}
              (Leads-lift _ (λ s o h e. e))
              (λ o.
                Leads-bind
                  {Q = λ a _.
                    (at (outside.tx_out rec.msg_tx) rel.index ≡ ok o)
                    × (outside.amount_from_int o.value ≡ ok a)}
                  (Leads-lift _ (λ s a h e. (h, e)))
                  (λ a. Leads-bind (Leads-Keeps (const-Keeps _)) (λ v.
                    Leads-bind (Leads-Keeps (const-Keeps _)) (λ _.
                      Leads-bind (Leads-Keeps (const-Keeps _)) (λ _.
                        Leads-bind {Q = λ b _. Round rec w rel bs (set_balance rel.wallet_id b bs)}
                          (Leads-lift _ (λ s b h e. round_lem money rec w rel bs o a b h.0 h.1 e))
                          (λ b. Leads-pure _ (λ s h. h))))))))))

    loop-Leads :
        (rels : List RelevantMeta) (bs : List (Balance A))
        → Leads
            (λ _. Unit {0})
            (for_with (add_credit outside fetch_bucket rec block) rels bs)
            (λ bs' _. value_in w bs' ≡ value_in w bs + paid_to w rec.msg_tx rels)
    unfolding for_with paid_to Round
    loop-Leads [] bs = Leads-pure bs (λ s h. omega arith)
    loop-Leads (rel ∷ rels) bs =
        Leads-bind (add_credit-Leads rel bs)
          (λ bs'. record { run = λ s h b e. omega (arith, h, (loop-Leads rels bs').run s tt b e) })

    -- Where AddCredits succeeds on a mined transaction, with amounts that add as documented, the
    -- balance of every wallet has grown by exactly what the transaction's outputs pay to it.
    pub add_mined_credits_total :
        (bs : List (Balance A)) (s : S) {bs' : List (Balance A)}
        → (add_mined_credits outside fetch_bucket rec block bs s).0 ≡ ok bs'
        → value_in w bs' ≡ value_in w bs + paid_to w rec.msg_tx rec.relevant_tx_out
    unfolding add_mined_credits
    add_mined_credits_total bs s {bs'} e =
        (Leads-bind (loop-Leads rec.relevant_tx_out bs)
            (λ b. Leads-bind (Leads-Keeps (const-Keeps _)) (λ _. Leads-pure b (λ s h. h)))).run
          s tt bs' e
