-- ===== src/Chain/Codec.antt =====
-- The canonical encoding of a transaction, core/chain.
use reserve_os.Base.{
  ℕ, ◌%◌, ◌^◌, ◌<◌, ◌≡◌, refl, sym, ap, ◌∙◌, ◌↔◌, false, List, [], ◌∷◌, ◌++◌, append_assoc, Option,
  none, some, arith, Bytes, length, drop, All, IsU32, IsU64, le_bytes, le_value, le_value-le_bytes,
  length-le_bytes,
}
use reserve_os.Chain.{
  TxOut, OtapClaim, Tx, put_bytes, put_output, put_outputs, put_claim, canonical_tx_bytes,
  signing_bytes,
}

-- Equal texts whose first parts are equally long have equal parts.
pub append-cancel : (a b c d : Bytes) → length a ≡ length b → a ++ c ≡ b ++ d → (a ≡ b) × (c ≡ d)
append-cancel [] [] c d h e = (refl, e)
append-cancel [] (y ∷ b) c d h e = absurd (omega arith)
append-cancel (x ∷ a) [] c d h e = absurd (omega arith)
append-cancel (x ∷ a) (y ∷ b) c d h e = ground (arith, append-cancel a b c d)

pub le_bytes-cancel :
    (k n m : ℕ) (c d : Bytes)
    → n < 256 ^ k
    → m < 256 ^ k
    → le_bytes k n ++ c ≡ le_bytes k m ++ d
    → (n ≡ m) × (c ≡ d)
le_bytes-cancel k n m c d hn hm e =
    let (same, rest) =
      append-cancel (le_bytes k n) (le_bytes k m) c d
        (length-le_bytes k n ∙ sym (length-le_bytes k m)) e in
    (sym (le_value-le_bytes k n hn) ∙ ap le_value same ∙ le_value-le_bytes k m hm, rest)

-- The texts whose length fits into the four bytes before them.
abbrev pub IsShort : Bytes → Type 0
IsShort s = length s < 2 ^ 32

pub put_bytes-cancel :
    (s t c d : Bytes)
    → IsShort s
    → IsShort t
    → put_bytes s ++ c ≡ put_bytes t ++ d
    → (s ≡ t) × (c ≡ d)
unfolding put_bytes
put_bytes-cancel s t c d hs ht e =
    let (n, rest) =
      le_bytes-cancel 4 (length s % 2 ^ 32) (length t % 2 ^ 32) (s ++ c) (t ++ d) (omega arith)
        (omega arith)
        (sym (append_assoc (le_bytes 4 (length s % 2 ^ 32)) s c)
          ∙ e
          ∙ append_assoc (le_bytes 4 (length t % 2 ^ 32)) t d) in
    append-cancel s t c d (omega arith) rest

pub record IsWireOutput (o : TxOut) : Type 0 where
  pub amount : IsU64 o.amount
  pub asset : IsShort o.asset
  pub address : IsShort o.address
  pub p : IsShort o.p
  pub r : IsShort o.r
  pub tag : IsShort o.tag
  pub enc_memo : IsShort o.enc_memo
  pub policy_bits : IsU32 o.policy_bits

put_output-cancel :
    (o q : TxOut) (c d : Bytes)
    → IsWireOutput o
    → IsWireOutput q
    → put_output o ++ c ≡ put_output q ++ d
    → (o ≡ q) × (c ≡ d)
unfolding put_output
put_output-cancel o q c d ho hq e =
    let e0 = simp append_assoc at e in
    let (same_amount, e1) = le_bytes-cancel 8 o.amount q.amount _ _ ho.amount hq.amount e0 in
    let (same_asset, e2) = put_bytes-cancel o.asset q.asset _ _ ho.asset hq.asset e1 in
    let (same_address, e3) = put_bytes-cancel o.address q.address _ _ ho.address hq.address e2 in
    let (same_p, e4) = put_bytes-cancel o.p q.p _ _ ho.p hq.p e3 in
    let (same_r, e5) = put_bytes-cancel o.r q.r _ _ ho.r hq.r e4 in
    let (same_tag, e6) = put_bytes-cancel o.tag q.tag _ _ ho.tag hq.tag e5 in
    let (same_memo, e7) = put_bytes-cancel o.enc_memo q.enc_memo _ _ ho.enc_memo hq.enc_memo e6 in
    let (same_bits, rest) =
      le_bytes-cancel 4 o.policy_bits q.policy_bits c d ho.policy_bits hq.policy_bits e7 in
    (cc, rest)

put_outputs-cancel :
    (os qs : List TxOut) (c d : Bytes)
    → length os ≡ length qs
    → All IsWireOutput os
    → All IsWireOutput qs
    → put_outputs os ++ c ≡ put_outputs qs ++ d
    → (os ≡ qs) × (c ≡ d)
unfolding put_outputs
put_outputs-cancel [] [] c d h ho hq e = (refl, e)
put_outputs-cancel [] (q ∷ qs) c d h ho hq e = absurd (omega arith)
put_outputs-cancel (o ∷ os) [] c d h ho hq e = absurd (omega arith)
put_outputs-cancel (o ∷ os) (q ∷ qs) c d h ho hq e =
    let (same, more) = put_output-cancel o q (put_outputs os ++ c) (put_outputs qs ++ d) ho.0 hq.0 (
      sym (append_assoc (put_output o) (put_outputs os) c)
      ∙ e
      ∙ append_assoc (put_output q) (put_outputs qs) d) in
    let (rest, tail) = put_outputs-cancel os qs c d (omega arith) ho.1 hq.1 more in (cc, tail)

pub record IsWireClaim (k : OtapClaim) : Type 0 where
  pub p : IsShort k.p
  pub r : IsShort k.r
  pub tag : IsShort k.tag
  pub to : IsShort k.to
  pub amount : IsU64 k.amount

abbrev pub IsWireOptional : Option OtapClaim → Type 0
IsWireOptional none = Unit
IsWireOptional (some k) = IsWireClaim k

-- What of a claim is signed: all but its own signature.
abbrev pub unsigned_claim : Option OtapClaim → Option OtapClaim
unsigned_claim none = none
unsigned_claim (some k) = some (record k { claim_sig_hex = [] })

put_claim-cancel :
    (j k : Option OtapClaim) (c d : Bytes)
    → IsWireOptional j
    → IsWireOptional k
    → put_claim j false ++ c ≡ put_claim k false ++ d
    → (unsigned_claim j ≡ unsigned_claim k) × (c ≡ d)
unfolding put_claim
put_claim-cancel none none c d hj hk e = (refl, ap (drop 1) e)
put_claim-cancel none (some k) c d hj hk e = cc
put_claim-cancel (some j) none c d hj hk e = cc
put_claim-cancel (some j) (some k) c d hj hk e =
    let e0 = ap (drop 1) (simp append_assoc at e) in
    let (same_p, e1) = put_bytes-cancel j.p k.p _ _ hj.p hk.p e0 in
    let (same_r, e2) = put_bytes-cancel j.r k.r _ _ hj.r hk.r e1 in
    let (same_tag, e3) = put_bytes-cancel j.tag k.tag _ _ hj.tag hk.tag e2 in
    let (same_to, e4) = put_bytes-cancel j.to k.to _ _ hj.to hk.to e3 in
    let (same_amount, e5) = le_bytes-cancel 8 j.amount k.amount _ _ hj.amount hk.amount e4 in
    let (_, rest) = put_bytes-cancel [] [] c d (omega arith) (omega arith) e5 in (cc, rest)

-- A transaction whose lengths and numbers fit into their fields.
pub record IsWireTx (tx : Tx) : Type 0 where
  pub version : IsU32 tx.version
  pub type : IsShort tx.type
  pub from : IsShort tx.from
  pub pub_key : IsShort tx.pub_key
  pub nonce : IsU64 tx.nonce
  pub fee : IsU64 tx.fee
  pub gas_asset : IsShort tx.gas_asset
  pub count : length tx.outputs < 2 ^ 32
  pub outputs : All IsWireOutput tx.outputs
  pub claim : IsWireOptional tx.otap_claim

-- Two transactions that differ at most in their signatures and in the memo.
pub record SameContent (t u : Tx) : Type 0 where
  pub version : t.version ≡ u.version
  pub type : t.type ≡ u.type
  pub from : t.from ≡ u.from
  pub pub_key : t.pub_key ≡ u.pub_key
  pub nonce : t.nonce ≡ u.nonce
  pub fee : t.fee ≡ u.fee
  pub gas_asset : t.gas_asset ≡ u.gas_asset
  pub outputs : t.outputs ≡ u.outputs
  pub claim : unsigned_claim t.otap_claim ≡ unsigned_claim u.otap_claim

put_claim-unsigned : (j : Option OtapClaim) → put_claim (unsigned_claim j) false ≡ put_claim j false
unfolding put_claim
put_claim-unsigned none = refl
put_claim-unsigned (some j) = refl

signing_bytes-SameContent : (t u : Tx) → SameContent t u → signing_bytes t ≡ signing_bytes u
unfolding signing_bytes canonical_tx_bytes
signing_bytes-SameContent t u same =
    cc (put_claim-unsigned t.otap_claim, put_claim-unsigned u.otap_claim)

signing_bytes-injective :
    (t u : Tx) → IsWireTx t → IsWireTx u → signing_bytes t ≡ signing_bytes u → SameContent t u
unfolding signing_bytes canonical_tx_bytes
signing_bytes-injective t u ht hu e =
    let e0 = ap (drop 6) e in
    let (same_version, e1) = le_bytes-cancel 4 t.version u.version _ _ ht.version hu.version e0 in
    let (same_type, e2) = put_bytes-cancel t.type u.type _ _ ht.type hu.type e1 in
    let (same_from, e3) = put_bytes-cancel t.from u.from _ _ ht.from hu.from e2 in
    let (same_key, e4) = put_bytes-cancel t.pub_key u.pub_key _ _ ht.pub_key hu.pub_key e3 in
    let (same_nonce, e5) = le_bytes-cancel 8 t.nonce u.nonce _ _ ht.nonce hu.nonce e4 in
    let (same_fee, e6) = le_bytes-cancel 8 t.fee u.fee _ _ ht.fee hu.fee e5 in
    let (same_gas, e7) =
      put_bytes-cancel t.gas_asset u.gas_asset _ _ ht.gas_asset hu.gas_asset e6 in
    let (same_count, e8) =
      le_bytes-cancel 4 (length t.outputs % 2 ^ 32) (length u.outputs % 2 ^ 32) _ _ (omega arith)
        (omega arith) e7 in
    let (same_outputs, e9) =
      put_outputs-cancel t.outputs u.outputs _ _
        (fits (length t.outputs) (length u.outputs) ht.count hu.count same_count) ht.outputs
        hu.outputs e8 in
    let (same_claim, rest) = put_claim-cancel t.otap_claim u.otap_claim _ _ ht.claim hu.claim e9 in
    record {
      version = same_version;
      type = same_type;
      from = same_from;
      pub_key = same_key;
      nonce = same_nonce;
      fee = same_fee;
      gas_asset = same_gas;
      outputs = same_outputs;
      claim = same_claim;
    }
  where
    fits : (m n : ℕ) → m < 2 ^ 32 → n < 2 ^ 32 → m % 2 ^ 32 ≡ n % 2 ^ 32 → m ≡ n
    fits m n hm hn e = omega arith

-- Two transactions whose fields fit their encodings have the same signing bytes exactly when they
-- agree in everything but the signatures and the memo: a signature covers every other field, and
-- covers neither the memo nor the claim's signature.
pub signing_bytes_iff :
    (t u : Tx) → IsWireTx t → IsWireTx u → (signing_bytes t ≡ signing_bytes u) ↔ SameContent t u
signing_bytes_iff t u ht hu = (signing_bytes-injective t u ht hu, signing_bytes-SameContent t u)
