-- ===== src/Cheques.antt =====
-- bot/infrastructure/persistence/sqlalchemy_cheque_repository.py: the two tables of cheques, with
-- each statement as a function on their rows, and the services that the use cases call.
pub mod Claim
pub mod Cancel
pub mod Limits
pub mod Refunds
use text.Mathlib.Text.{◌==◌ as str_eq}
use my_mtlwallet_bot.Prelude.{
  ℕ, suc, ◌+◌, String, Bool, true, false, ◌&&◌, not, Option, none, some, List, [], ◌∷◌, ◌++◌, ltb,
  ◌==◌, if◌then◌else◌,
}

-- The fields that the modelled code reads or writes; `status` is ChequeStatus, 1 for CANCELED.
pub record Cheque : Type 0 where
  pub cheque_id : ℕ
  pub uuid : String
  pub user_id : ℕ
  pub amount : String
  pub count : ℕ
  pub status : ℕ
  pub asset : Option String

abbrev pub canceled : ℕ
canceled = 1

pub record ChequeHistory : Type 0 where
  pub cheque_id : ℕ
  pub user_id : ℕ

pub record ChequeTables : Type 0 where
  pub cheques : List Cheque
  pub history : List ChequeHistory

-- `scalar_one_or_none`
pub data Found : Type 0 where
  missing : Found
  found : Cheque → Found
  ambiguous : Found

-- An optional filter by user.
abbrev pub is_of : Option ℕ → ℕ → Bool
is_of none user_id = true
is_of (some wanted) user_id = user_id == wanted

unfoldable pub select_cheques : String → Option ℕ → List Cheque → List Cheque
select_cheques uuid user [] = []
select_cheques uuid user (c ∷ cs) =
    let rest = select_cheques uuid user cs in
    if str_eq c.uuid uuid && is_of user c.user_id then c ∷ rest else rest

abbrev pub one_or_none : List Cheque → Found
one_or_none [] = missing
one_or_none (c ∷ []) = found c
one_or_none (c ∷ d ∷ cs) = ambiguous

-- get_by_uuid
unfoldable pub get_by_uuid : String → Option ℕ → ChequeTables → Found
get_by_uuid uuid user tables = one_or_none (select_cheques uuid user tables.cheques)

-- The history rows of one cheque, and of one user where there is one.
unfoldable pub rows_of : ℕ → Option ℕ → List ChequeHistory → ℕ
rows_of cheque_id user [] = 0
rows_of cheque_id user (row ∷ rows) =
    let rest = rows_of cheque_id user rows in
    if (row.cheque_id == cheque_id) && is_of user row.user_id then suc rest else rest

-- The join counts the history rows of every cheque of that uuid.
unfoldable pub joined : List Cheque → Option ℕ → List ChequeHistory → ℕ
joined [] user history = 0
joined (c ∷ cs) user history = rows_of c.cheque_id user history + joined cs user history

-- get_receive_count
unfoldable pub get_receive_count : String → Option ℕ → ChequeTables → ℕ
get_receive_count uuid user tables =
    joined (select_cheques uuid none tables.cheques) user tables.history

unfoldable pub open_cheques : ℕ → List ChequeHistory → List Cheque → List Cheque
open_cheques user_id history [] = []
open_cheques user_id history (c ∷ cs) =
    let rest = open_cheques user_id history cs in
    if (c.user_id == user_id)
      && not (c.status == canceled)
      && ltb (rows_of c.cheque_id none history) c.count
    then c ∷ rest
    else rest

-- get_available
unfoldable pub get_available : ℕ → ChequeTables → List Cheque
get_available user_id tables = open_cheques user_id tables.history tables.cheques

-- add_history
unfoldable pub add_history : ℕ → ℕ → ChequeTables → ChequeTables
add_history cheque_id user_id tables = record tables {
  history = record { cheque_id = cheque_id; user_id = user_id } ∷ tables.history;
}

unfoldable pub set_canceled : ℕ → List Cheque → List Cheque
set_canceled cheque_id [] = []
set_canceled cheque_id (c ∷ cs) =
    let rest = set_canceled cheque_id cs in
    if c.cheque_id == cheque_id then record c { status = canceled } ∷ rest else c ∷ rest

-- cancel; none where more than one row fits
unfoldable pub cancel : String → ℕ → ChequeTables → Option Bool × ChequeTables
cancel uuid user_id tables = elim (get_by_uuid uuid (some user_id) tables) [
  | missing ↦ (some false, tables)
  | ambiguous ↦ (none, tables)
  | found c ↦ (some true, record tables { cheques = set_canceled c.cheque_id tables.cheques })
]

-- IStellarService, as far as it is used; none where a call raises.
pub record StellarService : Type 1 where
  pub Operation : Type 0
  pub Transaction : Type 0
  pub generate_keypair : ℕ → String × String
  pub create_create_account_op : String → String → String → Operation
  pub create_change_trust_op : String → String → String → Operation
  pub create_payment_op : String → String → Option String → String → String → Operation
  pub build_transaction : String → List Operation → String → Option Transaction
  pub sign_transaction : Transaction → String → Option Transaction
  pub to_xdr : Transaction → String
  pub build_payment_transaction :
      String → String → String → Option String → String → String → Option String
  pub sign_xdr : String → String → Option String
