-- ===== src/Tests/Chain.antt =====
-- Three transactions, a parser of scripts and a chain, for the concrete runs of the transaction store.
use mass_net_wallet.Prelude.{
  ℕ, ◌≡◌, refl, true, false, List, [], ◌∷◌, if◌then◌else◌, replicate, map, ◌==◌,
}
use mass_net_wallet.Prelude.Bytes.{Bytes, bytes_eq}
use mass_net_wallet.Prelude.Signed.{ℤ, pos, negsuc}
use mass_net_wallet.Prelude.Exec.{short, Result, ok, err}
use mass_net_wallet.Prelude.Keeps.{ok_inj}
use mass_net_wallet.Txmgr.{Hash, OutPoint, BlockLoc, BlockMeta, Amounts}
use mass_net_wallet.Txmgr.TxRecords.{MsgTxs, IsMsgTxs, TxLoc}
use mass_net_wallet.Txmgr.Store.{PkScript, RelevantMeta, TxRecord, TxOut, Outside}
use mass_net_wallet.Tests.Payments.{coin_money, capped}

pub data Msg : Type 0 where
  funding parent child : Msg

abbrev pub funding_hash : Hash
funding_hash = replicate 32 1

abbrev pub parent_hash : Hash
parent_hash = replicate 32 2

abbrev pub child_hash : Hash
child_hash = replicate 32 3

abbrev pub wallet : Bytes
wallet = replicate 42 b'w'

abbrev pub encode : Msg → Bytes
encode funding = 1 ∷ []
encode parent = 2 ∷ []
encode child = 3 ∷ []

unfoldable pub decode : Bytes → Result Msg
decode bs =
    if bytes_eq bs (encode funding)
    then ok funding
    else if bytes_eq bs (encode parent)
    then ok parent
    else if bytes_eq bs (encode child)
    then ok child
    else err short

abbrev pub output : TxOut
output = record { value = pos 5; pk_script = [] }

abbrev pub script : PkScript
script = record {
  maturity = 0;
  address_class = 0;
  is_staking = false;
  is_binding = true;
  std_script_address = replicate 32 7;
  std_encode_address = 5 ∷ [];
  second_encode_address = 6 ∷ [];
}

abbrev pub messages : MsgTxs Msg
messages = record { bytes = λ m. ok (encode m); set_bytes = decode }

decode-encode : (m : Msg) {bs : Bytes} → ok (encode m) ≡ ok bs → decode bs ≡ ok m
unfolding decode bytes_eq
decode-encode funding e = rw (← ok_inj e) refl
decode-encode parent e = rw (← ok_inj e) refl
decode-encode child e = rw (← ok_inj e) refl

pub messages-IsMsgTxs : IsMsgTxs messages
messages-IsMsgTxs = record { set_bytes-bytes = λ m e. decode-encode m e }

abbrev pub spent_by : Msg → List OutPoint
spent_by funding = []
spent_by parent = record { hash = funding_hash; index = 0 } ∷ []
spent_by child = record { hash = parent_hash; index = 0 } ∷ []

abbrev pub hash_of : Msg → Hash
hash_of funding = funding_hash
hash_of parent = parent_hash
hash_of child = child_hash

-- massutil.Amount as a number
abbrev pub numbers : Amounts ℕ
numbers = record { from_uint = λ n. ok n; uint_value = λ n. n }

abbrev amount_of : ℤ → Result ℕ
amount_of (pos n) = capped n
amount_of (negsuc n) = err short

abbrev pub outside : Outside Msg ℕ
outside = record {
  msgs = messages;
  tx_in = spent_by;
  tx_out = λ m. output ∷ [];
  tx_hash = hash_of;
  is_coin_base = λ m. false;
  coinbase_maturity = 1000;
  amounts = numbers;
  money = coin_money;
  amount_from_int = amount_of;
  is_zero = λ n. n == 0;
  parse_pk_script = λ bs. ok script;
  is_valid_address_class = λ n. true;
  account_of_address = λ bs. ok wallet;
  account_of_script_hash = λ bs. ok wallet;
  current_account = wallet;
  dev_mode = true;
  fetch_tx_by_loc = λ h l. ok parent;
  fetch_tx_by_file_loc = λ b l. ok parent;
}

abbrev pub relevant : RelevantMeta
relevant = record { index = 0; pk_script = script; wallet_id = wallet; is_change_addr = false }

abbrev pub place : TxLoc
place = record { tx_start = 80; tx_len = 200 }

-- a transaction whose only input, if it has one, and whose output are the wallet's
abbrev pub record_of : Msg → TxRecord Msg
record_of m = record {
  msg_tx = m;
  hash = hash_of m;
  received = 1600000000;
  relevant_tx_in = map (λ o. relevant) (spent_by m);
  relevant_tx_out = relevant ∷ [];
  tx_loc = place;
}

abbrev pub block : ℕ → BlockMeta
block n = record { height = n; hash = replicate 32 n; timestamp = 1600000000 }

abbrev pub file_place : BlockLoc
file_place = record { file = 0; offset = 1000; size = 500 }
