-- ===== src/Wallet/Accounts.antt =====
-- The account of one wallet: what its row says against what its reservations hold and what its
-- entries have paid.
use cost.Prelude.{
  ◌+◌, ◌≡◌, refl, sym, ◌∙◌, ap, inl, inr, ℤ, pos, ◌+ℤ◌, ◌-ℤ◌, ◌≤ℤ◌, ltb_ℤ, true, if◌then◌else◌,
  some, List, [], ◌∷◌, arith, int_laws, eq_of_parts, Bool-cases,
}
use cost.Int64.{max_int64, add64, sub64, sub64_exact, add64_exact}
use cost.Text.{Text, text_eqb, text_eqb_refl}
use cost.Postgres.Tables.{
  ReservationRow, delete_expired, expired_sum, find_reservation, delete_reservation, held,
}
use cost.Postgres.Rows.{
  AllNonneg, held-delete_expired, held_nonneg, expired_sum_nonneg, delete_expired-AllNonneg,
  held-delete_reservation, delete_reservation-AllNonneg, find_reservation-nonneg,
}
use cost.Wallet.Tables.{
  WalletRow, WalletEntry, debit, credit, Database, find_wallet, update_wallet, total,
}
use cost.Wallet.Base.{WalletLedger, Environment, lease}

-- The wallet has a row; what it has reserved is exactly what its reservations hold, none of them
-- below 0, and is covered by its balance, an int64; and its balance and its debits are what it
-- opened with and its credits.
pub record Accounted (wallet : Text) (opening : ℤ) (t : Database) : Type 0 where
  pub row : WalletRow
  pub found : find_wallet wallet t.wallets ≡ some row
  pub exact : row.reserved_micros ≡ held wallet t.reservations
  pub amounts : AllNonneg t.reservations
  pub covered : row.reserved_micros ≤ℤ row.balance_micros
  pub small : row.balance_micros ≤ℤ max_int64
  pub paid :
      row.balance_micros +ℤ total debit wallet t.entries ≡ opening +ℤ total credit wallet t.entries

pub find_wallet-update_wallet :
    (wallet : Text) (f : WalletRow → WalletRow) (rows : List WalletRow) (w : WalletRow)
    → ((r : WalletRow) → (f r).wallet_id ≡ r.wallet_id)
    → find_wallet wallet rows ≡ some w
    → find_wallet wallet (update_wallet wallet f rows) ≡ some (f w)
unfolding find_wallet update_wallet
find_wallet-update_wallet wallet f [] w keeps h = ground arith
find_wallet-update_wallet wallet f (r ∷ rows) w keeps h =
    ground (arith, keeps r, find_wallet-update_wallet wallet f rows w keeps)

module _ (wallet : Text) (opening : ℤ) where
  pub reserved_nonneg :
      {t : Database} (a : Accounted wallet opening t) → pos 0 ≤ℤ a.row.reserved_micros
  reserved_nonneg {t} a = rw a.exact (held_nonneg wallet t.reservations a.amounts)

module _ (l : WalletLedger) (env : Environment) where
  abbrev pub wallet : Text
  wallet = l.identity.wallet_id

  abbrev pub reclaimed : Database → ℤ
  reclaimed t = expired_sum wallet env.now t.reservations

  abbrev pub with_reserved : ℤ → WalletRow → WalletRow
  with_reserved reserved w = record w { reserved_micros = reserved }

  abbrev pub left_after : WalletRow → Database → ℤ
  left_after row t = sub64 row.reserved_micros (reclaimed t)

  abbrev pub reclaimed_database : WalletRow → Database → Database
  reclaimed_database row t = record t {
    reservations = delete_expired wallet env.now t.reservations;
    wallets =
        if ltb_ℤ (pos 0) (reclaimed t)
        then update_wallet wallet (with_reserved (left_after row t)) t.wallets
        else t.wallets;
  }

  abbrev pub held_database : Text → (estimate reserved : ℤ) → Database → Database
  held_database id estimate reserved t = record t {
    reservations =
        record { id = id; scope = wallet; amount_micros = estimate; expires_at = env.now + lease l }
        ∷ t.reservations;
    wallets = update_wallet wallet (with_reserved (add64 reserved estimate)) t.wallets;
  }

module _ (l : WalletLedger) (env : Environment) (opening : ℤ) where
  -- The subtraction of reclaimExpired does not wrap, and gives what is left in the table.
  pub left_after_exact :
      (t : Database) (a : Accounted l.identity.wallet_id opening t)
      → left_after l env a.row t
        ≡ held l.identity.wallet_id (delete_expired l.identity.wallet_id env.now t.reservations)
  left_after_exact t a =
      exact (held l.identity.wallet_id (delete_expired l.identity.wallet_id env.now t.reservations))
        (reclaimed l env t) a.row.reserved_micros
        (held-delete_expired l.identity.wallet_id env.now t.reservations ∙ sym a.exact)
        (held_nonneg l.identity.wallet_id _
          (delete_expired-AllNonneg l.identity.wallet_id env.now t.reservations a.amounts))
        (expired_sum_nonneg l.identity.wallet_id env.now t.reservations a.amounts)
        (grind (int_laws, a.covered, a.small))
    where
      exact :
          (kept sum reserved : ℤ)
          → kept +ℤ sum ≡ reserved
          → pos 0 ≤ℤ kept
          → pos 0 ≤ℤ sum
          → reserved ≤ℤ max_int64
          → sub64 reserved sum ≡ kept
      exact kept sum reserved e hk hs hr =
          sub64_exact reserved sum (grind int_laws)
          ∙ eq_of_parts (reserved -ℤ sum) kept (grind int_laws)

  found-reclaimed :
      (t : Database) (a : Accounted l.identity.wallet_id opening t)
      → find_wallet l.identity.wallet_id (reclaimed_database l env a.row t).wallets
        ≡ some (with_reserved l env (left_after l env a.row t) a.row)
  found-reclaimed t a = elim (Bool-cases (ltb_ℤ (pos 0) (reclaimed l env t))) [
    | inl some_expired ↦ rw some_expired (
        find_wallet-update_wallet l.identity.wallet_id
          (with_reserved l env (left_after l env a.row t)) t.wallets a.row (λ _. refl) a.found)
    | inr none_expired ↦
        let sum0 : pos 0 ≤ℤ reclaimed l env t =
          expired_sum_nonneg l.identity.wallet_id env.now t.reservations a.amounts in
        let same : left_after l env a.row t ≡ a.row.reserved_micros =
          left_after_exact t a
          ∙ eq_of_parts _ _ (
              grind (
                int_laws,
                none_expired,
                sum0,
                a.exact,
                held-delete_expired l.identity.wallet_id env.now t.reservations,
              )) in
        rw none_expired (a.found ∙ ap (λ r. some (with_reserved l env r a.row)) (sym same))
  ]

  pub reclaimed-Accounted :
      (t : Database) (a : Accounted l.identity.wallet_id opening t)
      → Accounted l.identity.wallet_id opening (reclaimed_database l env a.row t)
  reclaimed-Accounted t a = record {
    row = with_reserved l env (left_after l env a.row t) a.row;
    found = found-reclaimed t a;
    exact = left_after_exact t a;
    amounts = delete_expired-AllNonneg l.identity.wallet_id env.now t.reservations a.amounts;
    covered = rw (left_after_exact t a) (
        grind (
          int_laws,
          a.exact,
          a.covered,
          held-delete_expired l.identity.wallet_id env.now t.reservations,
          expired_sum_nonneg l.identity.wallet_id env.now t.reservations a.amounts,
        ));
    small = a.small;
    paid = a.paid;
  }

  pub row-reclaimed :
      (t : Database) (a : Accounted l.identity.wallet_id opening t)
      → (reclaimed-Accounted t a).row ≡ with_reserved l env (left_after l env a.row t) a.row
  unfolding reclaimed-Accounted
  row-reclaimed t a = refl

  held-Accounted :
      (id : Text) (estimate : ℤ) (t : Database) (a : Accounted l.identity.wallet_id opening t)
      → pos 0 ≤ℤ estimate
      → a.row.reserved_micros +ℤ estimate ≤ℤ a.row.balance_micros
      → Accounted l.identity.wallet_id opening
          (held_database l env id estimate a.row.reserved_micros t)
  unfolding held
  held-Accounted id estimate t a he fits =
      let sum : add64 a.row.reserved_micros estimate ≡ a.row.reserved_micros +ℤ estimate =
        add64_exact a.row.reserved_micros estimate
          (grind (int_laws, reserved_nonneg l.identity.wallet_id opening a, a.small)) in
      record {
        row = with_reserved l env (add64 a.row.reserved_micros estimate) a.row;
        found =
            find_wallet-update_wallet l.identity.wallet_id
              (with_reserved l env (add64 a.row.reserved_micros estimate)) t.wallets a.row
              (λ _. refl) a.found;
        exact = rw (sum, text_eqb_refl l.identity.wallet_id) (grind (int_laws, a.exact));
        amounts = (he, a.amounts);
        covered = rw sum fits;
        small = a.small;
        paid = a.paid;
      }

  pub held-Accounted_at :
      (id : Text) (estimate reserved : ℤ) (t : Database)
      (a : Accounted l.identity.wallet_id opening t)
      → a.row.reserved_micros ≡ reserved
      → pos 0 ≤ℤ estimate
      → reserved +ℤ estimate ≤ℤ a.row.balance_micros
      → Accounted l.identity.wallet_id opening (held_database l env id estimate reserved t)
  held-Accounted_at id estimate reserved t a e he fits =
      rw (← e) (held-Accounted id estimate t a he (rw e fits))

  -- A hold of the wallet is settled at `actual`, which its debit entry, if there is one, records.
  pub settled-Accounted :
      (id : Text) (actual : ℤ) (r : ReservationRow) (entries : List WalletEntry) (t : Database)
      (a : Accounted l.identity.wallet_id opening t)
      → find_reservation id t.reservations ≡ some r
      → text_eqb r.scope l.identity.wallet_id ≡ true
      → pos 0 ≤ℤ actual
      → actual +ℤ (a.row.reserved_micros -ℤ r.amount_micros) ≤ℤ a.row.balance_micros
      → total debit l.identity.wallet_id entries
        ≡ actual +ℤ total debit l.identity.wallet_id t.entries
      → total credit l.identity.wallet_id entries ≡ total credit l.identity.wallet_id t.entries
      → Accounted l.identity.wallet_id opening (record t {
        reservations = delete_reservation id t.reservations;
        wallets =
            update_wallet l.identity.wallet_id
              (λ w. record w {
                balance_micros = w.balance_micros -ℤ actual;
                reserved_micros = w.reserved_micros -ℤ r.amount_micros;
              })
              t.wallets;
        entries = entries;
      })
  settled-Accounted id actual r entries t a h own h0 room debits credits = record {
    row = record (a.row) {
      balance_micros = a.row.balance_micros -ℤ actual;
      reserved_micros = a.row.reserved_micros -ℤ r.amount_micros;
    };
    found = find_wallet-update_wallet l.identity.wallet_id _ t.wallets a.row (λ _. refl) a.found;
    exact = grind (
      int_laws,
      a.exact,
      rw own at (held-delete_reservation l.identity.wallet_id id t.reservations r h),
    );
    amounts = delete_reservation-AllNonneg id t.reservations a.amounts;
    covered = grind (int_laws, room);
    small = grind (int_laws, a.small);
    paid = rw (debits, credits) (grind (int_laws, a.paid));
  }

  -- A hold of the wallet is given back.
  pub released-Accounted :
      (id : Text) (r : ReservationRow) (t : Database) (a : Accounted l.identity.wallet_id opening t)
      → find_reservation id t.reservations ≡ some r
      → text_eqb r.scope l.identity.wallet_id ≡ true
      → Accounted l.identity.wallet_id opening (record t {
        reservations = delete_reservation id t.reservations;
        wallets =
            update_wallet l.identity.wallet_id
              (λ w. record w { reserved_micros = w.reserved_micros -ℤ r.amount_micros })
              t.wallets;
      })
  released-Accounted id r t a h own = record {
    row = record (a.row) { reserved_micros = a.row.reserved_micros -ℤ r.amount_micros };
    found = find_wallet-update_wallet l.identity.wallet_id _ t.wallets a.row (λ _. refl) a.found;
    exact = grind (
      int_laws,
      a.exact,
      rw own at (held-delete_reservation l.identity.wallet_id id t.reservations r h),
    );
    amounts = delete_reservation-AllNonneg id t.reservations a.amounts;
    covered = grind (int_laws, a.covered, find_reservation-nonneg id t.reservations r a.amounts h);
    small = a.small;
    paid = a.paid;
  }
