-- ===== src/Txmgr/Addresses/Laws.antt =====
-- Addresses and balances are read back as they were written.
use mass_net_wallet.Prelude.{
  ℕ, suc, ◌^◌, ◌<◌, ◌≡◌, refl, sym, ap, ◌∙◌, Bool, true, false, Option, [], ◌∷◌, ◌++◌, arith, ltb,
  ◌==◌, length, drop, drop-append_length, append_assoc, length-append,
}
use mass_net_wallet.Prelude.Bytes.{
  Bytes, put_be, be, slice, be-put_be, length-put_be, slice-append_head, slice-append_skip,
  slice_self, lengths,
}
use mass_net_wallet.Prelude.Exec.{ok, ◌>>=◌}
use mass_net_wallet.Db.{Bucket, IsBucket}
use mass_net_wallet.Db.Rules.{get-put_self}
use mass_net_wallet.Txmgr.{AddressRecord, Amounts}
use mass_net_wallet.Txmgr.Addresses.{
  key_address_record, value_address_record, address_detail, fetch_mined_balance, put_mined_balance,
}

key_address_record-eq-ok :
    (valid : ℕ → Bool) (r : AddressRecord) {k : Bytes}
    → key_address_record valid r ≡ ok k
    → (length r.wallet_id ≡ 42)
      × (k ≡ r.wallet_id ++ (put_be 2 r.address_class ++ r.encode_address))
unfolding key_address_record
key_address_record-eq-ok valid r e = (ground arith, ground arith)

-- An address record that has a key is listed with its address and its 16-bit class, and as used
-- exactly when its height, of 64 bits, is not 0.
pub address_detail-key_address_record :
    (valid : ℕ → Bool) (r : AddressRecord) {k : Bytes}
    → key_address_record valid r ≡ ok k
    → r.address_class < 2 ^ 16
    → r.block_height < 2 ^ 64
    → address_detail (record { key = k; value = value_address_record r })
      ≡ ok (record {
        address = r.encode_address;
        address_class = r.address_class;
        used = ltb 0 r.block_height;
      })
unfolding address_detail value_address_record
address_detail-key_address_record valid r {k} e hc hb =
    let (len, shape) = key_address_record-eq-ok valid r e in
    let front : Bytes = r.wallet_id ++ put_be 2 r.address_class in
    let front_len : length front ≡ 44 = omega (lengths, len) in
    let whole : k ≡ front ++ r.encode_address =
      shape ∙ sym (append_assoc r.wallet_id (put_be 2 r.address_class) r.encode_address) in
    let long : ltb (length (front ++ r.encode_address)) 44 ≡ false =
      ground (arith, length-append front r.encode_address, front_len) in
    let rest : drop 44 (front ++ r.encode_address) ≡ r.encode_address =
      ap (λ (n : ℕ). drop n (front ++ r.encode_address)) (sym front_len)
      ∙ drop-append_length front r.encode_address in
    let class : be (slice 42 44 (front ++ r.encode_address)) ≡ r.address_class =
      ap (λ (t : Bytes). be (slice 42 44 t))
        (append_assoc r.wallet_id (put_be 2 r.address_class) r.encode_address)
      ∙ ap be (
          slice-append_skip 42 44 r.wallet_id (put_be 2 r.address_class ++ r.encode_address) len
            (omega arith)
          ∙ slice-append_head 2 (put_be 2 r.address_class) r.encode_address
              (length-put_be 2 r.address_class))
      ∙ be-put_be 2 r.address_class hc in
    let value_len : ltb (length (put_be 8 r.block_height)) 8 ≡ false =
      ground (arith, length-put_be 8 r.block_height) in
    let height : be (slice 0 8 (put_be 8 r.block_height)) ≡ r.block_height =
      ap be (slice_self 8 (put_be 8 r.block_height) (length-put_be 8 r.block_height))
      ∙ be-put_be 8 r.block_height hb in
    rw (whole, long, value_len, height, rest, class) refl

-- In a ready store putMinedBalance of a wallet id of 42 bytes succeeds, and fetchMinedBalance then
-- gives the one entry of that wallet and amount.
pub fetch-put_mined_balance :
    {S A : Type 0} (ns : Bucket S) {Ready : ℕ → S → Type 0} (laws : IsBucket ns Ready)
    (amounts : Amounts A) (n : ℕ) (wallet_id : Bytes) (amt : A) (s : S) {o : Option Bytes}
    → Ready (suc n) s
    → length wallet_id ≡ 42
    → ns.get wallet_id s ≡ ok o
    → ((put_mined_balance ns amounts wallet_id amt s).0 ≡ ok tt)
      × (fetch_mined_balance ns wallet_id (put_mined_balance ns amounts wallet_id amt s).1
          ≡ ok (record { key = wallet_id; value = put_be 8 (amounts.uint_value amt) } ∷ []))
unfolding put_mined_balance fetch_mined_balance ◌>>=◌
fetch-put_mined_balance ns laws amounts n wallet_id amt s r e g =
    let w = put_be 8 (amounts.uint_value amt) in
    let pos : 0 < length wallet_id = omega (arith, e) in
    let full : 0 < length w = omega (arith, length-put_be 8 (amounts.uint_value amt)) in
    let right : (length wallet_id == 42) ≡ true = ground (arith, e) in
    let given : ltb 0 (length wallet_id) ≡ true = ground (arith, e) in
    rw (right, given)
      (
        rw (laws.put_lem n wallet_id w s r pos full).0 refl,
        rw (get-put_self ns laws n wallet_id s w r pos full g) refl,
      )
