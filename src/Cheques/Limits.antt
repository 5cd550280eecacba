-- ===== src/Cheques/Limits.antt =====
-- A cheque is not claimed above its count, nor twice by one user, and is refunded at most once.
use my_mtlwallet_bot.Prelude.{
  ℕ, ◌≤◌, ◌≡◌, ◌⊎◌, inl, inr, refl, subst, String, false, Option, none, some, List, [], ◌∷◌, ltb,
  leb, ◌==◌, ==_refl, Bool-cases, Option-cases, arith,
}
use my_mtlwallet_bot.Wallets.{WalletRepository}
use my_mtlwallet_bot.Cheques.{
  Cheque, ChequeTables, found, one_or_none, select_cheques, get_by_uuid, rows_of, joined,
  get_receive_count, add_history, StellarService,
}
use my_mtlwallet_bot.Cheques.Claim.{
  Settings, State, wallet_for_claim, record_and_answer, claim_cheque,
}

pub one_or_none-found : (cs : List Cheque) (c : Cheque) → one_or_none cs ≡ found c → cs ≡ c ∷ []
one_or_none-found [] c h = cc
one_or_none-found (d ∷ []) c h = cc
one_or_none-found (d ∷ e ∷ cs) c h = cc

-- Where one cheque has the uuid, the join counts its rows.
get_receive_count-rows_of :
    (uuid : String) (user : Option ℕ) (tables : ChequeTables) (c : Cheque)
    → get_by_uuid uuid none tables ≡ found c
    → get_receive_count uuid user tables ≡ rows_of c.cheque_id user tables.history
unfolding get_by_uuid get_receive_count joined
get_receive_count-rows_of uuid user tables c h =
    rw (one_or_none-found (select_cheques uuid none tables.cheques) c h) (omega arith)

-- The tables hold one cheque of that uuid, within its count, and claimed by each user at most once.
pub record IsWithin (uuid : String) (c : Cheque) (tables : ChequeTables) : Type 0 where
  pub known : get_by_uuid uuid none tables ≡ found c
  pub total : rows_of c.cheque_id none tables.history ≤ c.count
  pub each : (user : ℕ) → rows_of c.cheque_id (some user) tables.history ≤ 1

add_history-IsWithin :
    (uuid : String) (c : Cheque) (user_id : ℕ) (tables : ChequeTables)
    → IsWithin uuid c tables
    → leb c.count (rows_of c.cheque_id none tables.history) ≡ false
    → ltb 0 (rows_of c.cheque_id (some user_id) tables.history) ≡ false
    → IsWithin uuid c (add_history c.cheque_id user_id tables)
unfolding add_history rows_of get_by_uuid
add_history-IsWithin uuid c user_id tables w below first = record {
  known = w.known;
  total = rw (==_refl c.cheque_id) (ground arith);
  each = λ user. elim (Bool-cases (user_id == user)) [
    | inl e ↦
        let same : user_id ≡ user = ground arith in
        let none_yet =
          subst (λ u. ltb 0 (rows_of c.cheque_id (some u) tables.history) ≡ false) same first in
        rw (==_refl c.cheque_id, e) (ground arith)
    | inr e ↦ rw (==_refl c.cheque_id, e) (w.each user)
  ];
}

module _ (settings : Settings) (service : StellarService) (repository : WalletRepository) where
  open repository use {Db}

  record_and_answer_cases :
      (seed user_id : ℕ) (uuid : String) (c : Cheque) (state : State Db)
      → let tables =
          (record_and_answer settings service repository seed user_id uuid c state).1.tables in
        (tables ≡ state.tables) ⊎ (tables ≡ add_history c.cheque_id user_id state.tables)
  unfolding record_and_answer
  record_and_answer_cases seed user_id uuid c state =
      elim (Option-cases
        (wallet_for_claim settings service repository seed user_id state.wallets).0) [
          | inl e ↦ inl (rw (e, record_and_answer) refl)
          | inr (x, e) ↦ inr (rw (e, record_and_answer) refl)
        ]

  -- However a claim ends, a cheque that is known by its uuid, not claimed above its count and
  -- claimed by each user at most once, stays so; claims run one after the other, as the cheque
  -- worker takes them from its queue.
  pub claim_cheque-IsWithin :
      (seed user_id : ℕ) (uuid : String) (c : Cheque) (state : State Db)
      → IsWithin uuid c state.tables
      → IsWithin uuid c (claim_cheque settings service repository seed user_id uuid state).1.tables
  unfolding claim_cheque
  claim_cheque-IsWithin seed user_id uuid c state w =
      let total = get_receive_count-rows_of uuid none state.tables c w.known in
      let own = get_receive_count-rows_of uuid (some user_id) state.tables c w.known in
      elim (Bool-cases (leb c.count (get_receive_count uuid none state.tables))) [
        | inl e ↦ rw (w.known, claim_cheque, e) w
        | inr below ↦
            elim (Bool-cases (ltb 0 (get_receive_count uuid (some user_id) state.tables))) [
              | inl e ↦ rw (w.known, claim_cheque, below, e) w
              | inr first ↦ elim (record_and_answer_cases seed user_id uuid c state) [
                | inl e ↦ rw (w.known, claim_cheque, below, first, e) w
                | inr e ↦
                    rw (w.known, claim_cheque, below, first, e)
                      (add_history-IsWithin uuid c user_id state.tables w (rw total at below)
                        (rw own at first))
              ]
            ]
      ]
