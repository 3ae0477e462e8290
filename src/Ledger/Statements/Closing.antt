-- ===== src/Ledger/Statements/Closing.antt =====
-- The closing balance of a statement's last page.
use ledger_core.Base.{
  ◌≡◌, refl, ℕ, zero, suc, ◌≤◌, ℤ, pos, ◌+ℤ◌, +ℤ_zero, zero_+ℤ, +ℤ_assoc, int_laws, arith, String,
  List, [], ◌∷◌, Bool, true, false, ◌&&◌, not, Option, none, some, leb, if◌then◌else◌, length, take,
  sym, ap, subst, ◌∙◌,
}
use ledger_core.Errors.{Result, ok, err, or_error, account_not_found, or_error-eq-ok, >>=-eq-ok}
use ledger_core.Errors
use ledger_core.Ledger.Money.{Money, new_money}
use ledger_core.Ledger.Reads.{physical, scan_int64, signed_minor, sum_entries, get_balance_as_of}
use ledger_core.Ledger.Routing.{mem_id}
use ledger_core.Ledger.Statements.{
  StatementCursor, StatementQuery, StatementLine, Statement, start_cursor, is_after, opening_minor,
  entries_after, insert_by_time, by_time, scan_lines, closing_balance, cut_page, get_statement,
  cursor_of,
}
use ledger_core.Ledger.Types.{Uuid, Direction, JournalEntry}
use ledger_core.Postgres.{AccountRow, Db}

sum_signed : Direction → List JournalEntry → ℤ
sum_signed normal [] = pos 0
sum_signed normal (e ∷ es) = signed_minor normal e +ℤ sum_signed normal es

sum_signed-insert_by_time :
    (normal : Direction) (e : JournalEntry) (xs : List JournalEntry)
    → sum_signed normal (insert_by_time e xs) ≡ signed_minor normal e +ℤ sum_signed normal xs
unfolding sum_signed insert_by_time
sum_signed-insert_by_time normal e [] = refl
sum_signed-insert_by_time normal e (x ∷ xs) =
    inserted (is_after (cursor_of x) e) (sum_signed-insert_by_time normal e xs)
  where
    inserted :
        (b : Bool)
        → sum_signed normal (insert_by_time e xs) ≡ signed_minor normal e +ℤ sum_signed normal xs
        → sum_signed normal (if b then x ∷ insert_by_time e xs else e ∷ x ∷ xs)
          ≡ signed_minor normal e +ℤ (signed_minor normal x +ℤ sum_signed normal xs)
    inserted true h = rw h (omega int_laws)
    inserted false h = refl

sum_signed-by_time :
    (normal : Direction) (es : List JournalEntry)
    → sum_signed normal (by_time es) ≡ sum_signed normal es
unfolding sum_signed by_time
sum_signed-by_time normal [] = refl
sum_signed-by_time normal (e ∷ es) =
    sum_signed-insert_by_time normal e (by_time es)
    ∙ ap (λ x. signed_minor normal e +ℤ x) (sum_signed-by_time normal es)

-- An entry up to an instant stands before the cursor or after it.
split_once :
    (normal : Direction) (e : JournalEntry) (es : List JournalEntry) (own after early : Bool)
    (o r : ℤ)
    → ((after ≡ false) → (early ≡ true))
    → o +ℤ sum_signed normal es ≡ r
    → (if own && not after then signed_minor normal e +ℤ o else o)
        +ℤ sum_signed normal (if own && (after && early) then e ∷ es else es)
      ≡ (if own && early then signed_minor normal e +ℤ r else r)
unfolding sum_signed
split_once normal e es false after early o r h q = q
split_once normal e es true false true o r h q = rw (sym q) (omega int_laws)
split_once normal e es true false false o r h q = ground arith
split_once normal e es true true true o r h q = rw (sym q) (omega int_laws)
split_once normal e es true true false o r h q = q

opening_and_page :
    (normal : Direction) (ids : List Uuid) (c : StatementCursor) (to : ℕ) (es : List JournalEntry)
    → c.created_at ≤ to
    → opening_minor normal ids c es +ℤ sum_signed normal (entries_after ids c to es)
      ≡ sum_entries normal ids to es
unfolding opening_minor entries_after sum_entries ◌+ℤ◌ sum_signed
opening_and_page normal ids c to [] h = refl
opening_and_page normal ids c to (e ∷ es) h =
    split_once normal e (entries_after ids c to es) (mem_id e.account_id ids) (is_after c e)
      (leb e.created_at to) (opening_minor normal ids c es) (sum_entries normal ids to es)
      (ground arith) (opening_and_page normal ids c to es h)

scanned : (a : ℤ) {b : ℤ} → scan_int64 a ≡ ok b → a ≡ b
scanned a h = ground arith

pub new_money-ok-amount :
    (a : ℤ) (currency : String) (m : Money) → new_money a currency ≡ ok m → m.amount_minor ≡ a
unfolding new_money
new_money-ok-amount a currency m h = ground arith

take-eq-all : (n : ℕ) (xs : List JournalEntry) → length (take (suc n) xs) ≤ n → take (suc n) xs ≡ xs
take-eq-all zero [] h = refl
take-eq-all (suc n) [] h = refl
take-eq-all zero (x ∷ xs) h = ground arith
take-eq-all (suc n) (x ∷ xs) h = ap (λ ys. x ∷ ys) (take-eq-all n xs (ground arith))

cut_page-none :
    (limit : ℕ) (lines : List StatementLine) (page : List StatementLine × Option StatementCursor)
    → cut_page limit lines ≡ ok page
    → page.1 ≡ none
    → (lines ≡ page.0) × (length lines ≤ limit)
unfolding cut_page
cut_page-none limit lines page h last = ground arith

-- What a row gives: a line, whose running balance takes the entry in.
pub scan_lines-row :
    (id : Uuid) (normal : Direction) (currency : String) (start total : ℤ) (e : JournalEntry)
    (es : List JournalEntry) (lines : List StatementLine)
    → scan_lines id normal currency start total (e ∷ es) ≡ ok lines
    → (line : StatementLine) × (rest : List StatementLine) × (lines ≡ line ∷ rest)
      × (scan_lines id normal currency start (total +ℤ signed_minor normal e) es ≡ ok rest)
      × (scan_int64 (start +ℤ (total +ℤ signed_minor normal e))
          ≡ ok (start +ℤ (total +ℤ signed_minor normal e)))
      × (new_money (start +ℤ (total +ℤ signed_minor normal e)) currency ≡ ok line.running_balance)
      × (line.signed.amount_minor ≡ signed_minor normal e)
unfolding scan_lines
scan_lines-row id normal currency start total e es lines q =
    let (delta, f1, q1) = >>=-eq-ok (scan_int64 (signed_minor normal e)) _ q in
    let (running_minor, f2, q2) = >>=-eq-ok (scan_int64 (start +ℤ (total +ℤ delta))) _ q1 in
    let (signed, m1, q3) = >>=-eq-ok (new_money delta currency) _ q2 in
    let (running, m2, q4) = >>=-eq-ok (new_money running_minor currency) _ q3 in
    let (amount, m3, q5) = >>=-eq-ok (new_money e.amount.amount_minor currency) _ q4 in
    let (rest, r, q6) =
      >>=-eq-ok (scan_lines id normal currency start (total +ℤ signed_minor normal e) es) _ q5 in
    let here =
      ap (λ d. start +ℤ (total +ℤ d)) (scanned (signed_minor normal e) f1)
      ∙ scanned (start +ℤ (total +ℤ delta)) f2 in
    (
      _,
      rest,
      ap (λ (x : Result (List StatementLine)). elim x [ ok ls ↦ ls | err _ ↦ lines ]) (sym q6),
      r,
      subst (λ d. scan_int64 (start +ℤ (total +ℤ d)) ≡ ok (start +ℤ (total +ℤ d)))
          (sym (scanned (signed_minor normal e) f1))
          (f2 ∙ ap ok (sym (scanned (start +ℤ (total +ℤ delta)) f2))),
      ap (λ n. new_money n currency) here ∙ m2,
      new_money-ok-amount delta currency signed m1 ∙ sym (scanned (signed_minor normal e) f1),
    )

-- What the rows give: a line for every entry, and a closing balance that is the sum of all.
scan_lines-ok :
    (id : Uuid) (normal : Direction) (currency : String) (start total : ℤ) (opening : Money)
    (es : List JournalEntry) (lines : List StatementLine)
    → scan_int64 (start +ℤ total) ≡ ok (start +ℤ total)
    → new_money (start +ℤ total) currency ≡ ok opening
    → scan_lines id normal currency start total es ≡ ok lines
    → (length lines ≡ length es)
      × (scan_int64 (start +ℤ (total +ℤ sum_signed normal es))
          ≡ ok (start +ℤ (total +ℤ sum_signed normal es)))
      × (new_money (start +ℤ (total +ℤ sum_signed normal es)) currency
          ≡ ok (closing_balance opening lines))
unfolding scan_lines closing_balance sum_signed
scan_lines-ok id normal currency start total opening [] lines f m q =
    subst
      (λ ls.
        (length ls ≡ 0)
        × (scan_int64 (start +ℤ (total +ℤ pos 0)) ≡ ok (start +ℤ (total +ℤ pos 0)))
        × (new_money (start +ℤ (total +ℤ pos 0)) currency ≡ ok (closing_balance opening ls)))
      (ap (λ (x : Result (List StatementLine)). elim x [ ok ls ↦ ls | err _ ↦ lines ]) q)
      (rw (+ℤ_zero total) (refl, f, m))
scan_lines-ok id normal currency start total opening (e ∷ es) lines f m q =
    let (line, rest, split, r, f', m', _) =
      scan_lines-row id normal currency start total e es lines q in
    let (same, f'', m'') =
      scan_lines-ok id normal currency start (total +ℤ signed_minor normal e) line.running_balance
        es rest f' m' r in
    rw split (
      rw (sym (+ℤ_assoc total (signed_minor normal e) (sum_signed normal es)))
        (ap suc same, f'', m''))

-- The rows of a page that is not cut add up, with the opening balance, to the balance as of the end.
page_total :
    (normal : Direction) (ids : List Uuid) (c : StatementCursor) (to limit : ℕ)
    (es : List JournalEntry)
    → c.created_at ≤ to
    → length (take (suc limit) (by_time (entries_after ids c to es))) ≤ limit
    → opening_minor normal ids c es
        +ℤ (pos 0 +ℤ sum_signed normal (take (suc limit) (by_time (entries_after ids c to es))))
      ≡ pos 0 +ℤ sum_entries normal ids to es
page_total normal ids c to limit es h short =
    rw (take-eq-all limit (by_time (entries_after ids c to es)) short) (
      rw (sum_signed-by_time normal (entries_after ids c to es)) (
        rw (zero_+ℤ (sum_signed normal (entries_after ids c to es)))
          (opening_and_page normal ids c to es h ∙ sym (zero_+ℤ (sum_entries normal ids to es)))))

scanned_money :
    (t u : ℤ) (currency : String) (m : Money)
    → t ≡ u
    → scan_int64 t ≡ ok t
    → new_money t currency ≡ ok m
    → Errors.◌>>=◌ (scan_int64 u) (λ minor. new_money minor currency) ≡ ok m
scanned_money t u currency m same f made =
    subst (λ x. Errors.◌>>=◌ (scan_int64 x) (λ minor. new_money minor currency) ≡ ok m) same
      (subst (λ r. Errors.◌>>=◌ r (λ minor. new_money minor currency) ≡ ok m) (sym f) made)

-- The same, put together from the parts of `GetStatement`.
last_page :
    (db : Db) (q : StatementQuery) (account : AccountRow) (minor : ℤ) (opening : Money)
    (lines : List StatementLine) (page : List StatementLine × Option StatementCursor)
    → (start_cursor q).created_at ≤ q.to
    → db.accounts q.account_id ≡ some account
    → opening_minor account.normal_balance (physical db q.account_id) (start_cursor q) db.journal
      ≡ minor
    → scan_int64 minor ≡ ok minor
    → new_money minor account.currency ≡ ok opening
    → scan_lines q.account_id account.normal_balance account.currency minor (pos 0) (
        take
          (suc q.limit)
          (by_time (entries_after (physical db q.account_id) (start_cursor q) q.to db.journal)))
      ≡ ok lines
    → cut_page q.limit lines ≡ ok page
    → page.1 ≡ none
    → get_balance_as_of db q.account_id q.to ≡ ok (closing_balance opening page.0)
unfolding get_balance_as_of
last_page db q account minor opening lines page h found start f m r cut last =
    let (same, short) = cut_page-none q.limit lines page cut last in
    let page_entries =
      take (suc q.limit)
        (by_time (entries_after (physical db q.account_id) (start_cursor q) q.to db.journal)) in
    let zero_more = +ℤ_zero minor in
    let (rows, fits, made) =
      scan_lines-ok q.account_id account.normal_balance account.currency minor (pos 0) opening
        page_entries lines (rw zero_more f) (rw zero_more m) r in
    rw found (
      rw (sym same) (
        scanned_money (minor +ℤ (pos 0 +ℤ sum_signed account.normal_balance page_entries))
          (pos 0 +ℤ sum_entries account.normal_balance (physical db q.account_id) q.to db.journal)
          account.currency (closing_balance opening lines)
          (subst
            (λ x.
              x +ℤ (pos 0 +ℤ sum_signed account.normal_balance page_entries)
              ≡ pos 0
                +ℤ sum_entries account.normal_balance (physical db q.account_id) q.to db.journal)
            start
            (page_total account.normal_balance (physical db q.account_id) (start_cursor q) q.to
              q.limit db.journal h (subst (λ n. n ≤ q.limit) rows short)))
          fits made))

-- A last page closes with the balance that `GetBalanceAsOf` gives: where `GetStatement` returns a
-- statement with no next cursor, and the period ends no earlier than the start of the page,
-- `GetBalanceAsOf` returns, for the end of the period, the closing balance of the statement.
pub closing_as_of :
    (db : Db) (q : StatementQuery) (s : Statement)
    → (start_cursor q).created_at ≤ q.to
    → get_statement db q ≡ ok s
    → s.next_cursor ≡ none
    → get_balance_as_of db q.account_id q.to ≡ ok s.closing
unfolding get_statement get_balance_as_of
closing_as_of db q s h got last =
    let c = start_cursor q in
    let ids = physical db q.account_id in
    let (account, f0, g1) =
      >>=-eq-ok (or_error (db.accounts q.account_id) account_not_found) _ got in
    let normal = account.normal_balance in
    let o = opening_minor normal ids c db.journal in
    let es = take (suc q.limit) (by_time (entries_after ids c q.to db.journal)) in
    let (minor, f1, g2) = >>=-eq-ok (scan_int64 o) _ g1 in
    let (lines, r, g3) =
      >>=-eq-ok (scan_lines q.account_id normal account.currency minor (pos 0) es) _ g2 in
    let (page, cut, g4) = >>=-eq-ok (cut_page q.limit lines) _ g3 in
    let (opening, m, g5) = >>=-eq-ok (new_money minor account.currency) _ g4 in
    let start = scanned o f1 in
    let same = ap (λ x. elim x [ ok t ↦ t | err _ ↦ s ]) g5 in
    subst (λ t. get_balance_as_of db q.account_id q.to ≡ ok t.closing) same
      (last_page db q account minor opening lines page h
        (or_error-eq-ok (db.accounts q.account_id) account_not_found f0) start
        (subst (λ x. scan_int64 x ≡ ok minor) start f1) m r cut
        (ap (λ t. t.next_cursor) same ∙ last))
