-- ===== src/Ledger/Statements/Running.antt =====
-- The lines of a statement: how many there are, and their running balances.
use ledger_core.Base.{
  ◌≡◌, refl, ℕ, zero, suc, ◌≤◌, ℤ, pos, ◌+ℤ◌, +ℤ_zero, +ℤ_assoc, arith, String, List, [], ◌∷◌,
  Option, length, take, sym, ap, subst, ◌∙◌,
}
use ledger_core.Errors.{Result, ok, err, or_error, account_not_found, >>=-eq-ok}
use ledger_core.Ledger.Money.{new_money}
use ledger_core.Ledger.Reads.{physical, scan_int64, signed_minor}
use ledger_core.Ledger.Statements.{
  StatementCursor, StatementQuery, StatementLine, Statement, start_cursor, opening_minor,
  entries_after, by_time, scan_lines, cut_page, get_statement,
}
use ledger_core.Ledger.Statements.Closing.{scan_lines-row, new_money-ok-amount}
use ledger_core.Ledger.Types.{Uuid, Direction, JournalEntry}
use ledger_core.Postgres.{Db}

-- Every running balance is the one before it with the line's signed amount.
abbrev pub AreRunning : ℤ → List StatementLine → Type 0
AreRunning b [] = Unit
AreRunning b (l ∷ ls) =
    (l.running_balance.amount_minor ≡ b +ℤ l.signed.amount_minor)
    × AreRunning l.running_balance.amount_minor ls

scan_lines-AreRunning :
    (id : Uuid) (normal : Direction) (currency : String) (start total : ℤ) (es : List JournalEntry)
    (lines : List StatementLine)
    → scan_lines id normal currency start total es ≡ ok lines
    → AreRunning (start +ℤ total) lines
unfolding scan_lines
scan_lines-AreRunning id normal currency start total [] lines q =
    subst (λ ls. AreRunning (start +ℤ total) ls)
      (ap (λ (x : Result (List StatementLine)). elim x [ ok ls ↦ ls | err _ ↦ lines ]) q) tt
scan_lines-AreRunning id normal currency start total (e ∷ es) lines q =
    let (line, rest, split, r, f, m, amount) =
      scan_lines-row id normal currency start total e es lines q in
    let running =
      new_money-ok-amount (start +ℤ (total +ℤ signed_minor normal e)) currency line.running_balance
        m in
    subst (λ ls. AreRunning (start +ℤ total) ls) (sym split)
      (
        running
            ∙ sym (+ℤ_assoc start total (signed_minor normal e))
            ∙ ap (λ x. start +ℤ total +ℤ x) (sym amount),
        subst (λ x. AreRunning x rest) (sym running)
            (scan_lines-AreRunning id normal currency start (total +ℤ signed_minor normal e) es rest
              r),
      )

take-AreRunning :
    (n : ℕ) (b : ℤ) (lines : List StatementLine) → AreRunning b lines → AreRunning b (take n lines)
take-AreRunning zero b lines h = tt
take-AreRunning (suc n) b [] h = tt
take-AreRunning (suc n) b (l ∷ ls) h =
    (h.0, take-AreRunning n l.running_balance.amount_minor ls h.1)

length-take_le : (n : ℕ) (lines : List StatementLine) → length (take n lines) ≤ n
length-take_le zero lines = ground arith
length-take_le (suc n) [] = ground arith
length-take_le (suc n) (l ∷ ls) = ground (arith, length-take_le n ls)

take-short : (n : ℕ) (lines : List StatementLine) → length lines ≤ n → take n lines ≡ lines
take-short zero [] h = refl
take-short zero (l ∷ ls) h = ground arith
take-short (suc n) [] h = refl
take-short (suc n) (l ∷ ls) h = ap (λ xs. l ∷ xs) (take-short n ls (ground arith))

cut_page-take :
    (limit : ℕ) (lines : List StatementLine) (page : List StatementLine × Option StatementCursor)
    → cut_page limit lines ≡ ok page
    → page.0 ≡ take limit lines
unfolding cut_page
cut_page-take limit lines page h = ground (arith, take-short limit lines)

-- A statement reconciles with itself: where `GetStatement` returns one, it has at most as many
-- lines as the limit, and every running balance is the one before it, the opening balance for the
-- first line, with the signed amount of its line.
pub statement_reconciles :
    (db : Db) (q : StatementQuery) (s : Statement)
    → get_statement db q ≡ ok s
    → (length s.lines ≤ q.limit) × AreRunning s.opening.amount_minor s.lines
unfolding get_statement
statement_reconciles db q s got =
    let (account, f0, g1) =
      >>=-eq-ok (or_error (db.accounts q.account_id) account_not_found) _ got in
    let normal = account.normal_balance in
    let ids = physical db q.account_id in
    let (minor, f1, g2) =
      >>=-eq-ok (scan_int64 (opening_minor normal ids (start_cursor q) db.journal)) _ g1 in
    let es = take (suc q.limit) (by_time (entries_after ids (start_cursor q) q.to db.journal)) in
    let (lines, r, g3) =
      >>=-eq-ok (scan_lines q.account_id normal account.currency minor (pos 0) es) _ g2 in
    let (page, cut, g4) = >>=-eq-ok (cut_page q.limit lines) _ g3 in
    let (opening, m, g5) = >>=-eq-ok (new_money minor account.currency) _ g4 in
    let same = ap (λ x. elim x [ ok t ↦ t | err _ ↦ s ]) g5 in
    subst (λ t. (length t.lines ≤ q.limit) × AreRunning t.opening.amount_minor t.lines) same
      (rw (cut_page-take q.limit lines page cut) (
        length-take_le q.limit lines,
        take-AreRunning q.limit opening.amount_minor lines (
            subst (λ x. AreRunning x lines)
              (+ℤ_zero minor ∙ sym (new_money-ok-amount minor account.currency opening m))
              (scan_lines-AreRunning q.account_id normal account.currency minor (pos 0) es lines
                r)),
      ))
