-- ===== src/Ledger/Statements.antt =====
-- `GetStatement` of internal/ledger/pgledger/repository.go: one keyset page of an account's
-- entries with a running balance.
pub mod Closing
pub mod Running
mod Tests
use ledger_core.Base.{
  ℕ, suc, ◌-◌, ℤ, pos, ◌+ℤ◌, String, List, [], ◌∷◌, Bool, true, false, ◌&&◌, ◌||◌, not, Option,
  none, some, ◌==◌, leb, ltb, if◌then◌else◌, get_elem?, length, take,
}
use ledger_core.Errors.{Result, ok, err, or_error, account_not_found, panicked}
use ledger_core.Errors
use ledger_core.Ledger.Money.{Money, new_money}
use ledger_core.Ledger.Reads.{physical, scan_int64, signed_minor}
use ledger_core.Ledger.Routing.{mem_id}
use ledger_core.Ledger.Types.{Uuid, nil_uuid, Direction, JournalEntry}
use ledger_core.Postgres.{Db}

pub record StatementCursor : Type 0 where
  pub created_at : ℕ
  pub entry_id : Uuid

pub record StatementQuery : Type 0 where
  pub account_id : Uuid
  pub from : ℕ
  pub to : ℕ
  pub limit : ℕ
  pub after : Option StatementCursor

pub record StatementLine : Type 0 where
  pub entry : JournalEntry
  pub signed : Money
  pub running_balance : Money

pub record Statement : Type 0 where
  pub account_id : Uuid
  pub currency : String
  pub from : ℕ
  pub to : ℕ
  pub opening : Money
  pub closing : Money
  pub lines : List StatementLine
  pub next_cursor : Option StatementCursor

-- `cursorAt, cursorID`
abbrev pub start_cursor : StatementQuery → StatementCursor
start_cursor q = elim q.after [
  | none ↦ record { created_at = q.from; entry_id = nil_uuid }
  | some c ↦ c
]

-- `(je.created_at, je.id) > (at, id)`
abbrev pub is_after : StatementCursor → JournalEntry → Bool
is_after c e =
    ltb c.created_at e.created_at || ((c.created_at == e.created_at) && ltb c.entry_id e.id)

-- The `opening` CTE.
unfoldable pub opening_minor : Direction → List Uuid → StatementCursor → List JournalEntry → ℤ
opening_minor normal ids c [] = pos 0
opening_minor normal ids c (e ∷ es) =
    let rest = opening_minor normal ids c es in
    if mem_id e.account_id ids && not (is_after c e) then signed_minor normal e +ℤ rest else rest

-- `WHERE` of the `page` CTE.
unfoldable pub entries_after :
    List Uuid → StatementCursor → ℕ → List JournalEntry → List JournalEntry
entries_after ids c to [] = []
entries_after ids c to (e ∷ es) =
    let rest = entries_after ids c to es in
    if mem_id e.account_id ids && (is_after c e && leb e.created_at to) then e ∷ rest else rest

abbrev cursor_of : JournalEntry → StatementCursor
cursor_of e = record { created_at = e.created_at; entry_id = e.id }

-- `ORDER BY je.created_at, je.id`
unfoldable pub insert_by_time : JournalEntry → List JournalEntry → List JournalEntry
insert_by_time e [] = e ∷ []
insert_by_time e (x ∷ xs) = if is_after (cursor_of x) e then x ∷ insert_by_time e xs else e ∷ x ∷ xs

unfoldable pub by_time : List JournalEntry → List JournalEntry
by_time [] = []
by_time (e ∷ es) = insert_by_time e (by_time es)

-- The loop over the rows, with the sum of the `OVER` window up to the row before.
unfoldable pub scan_lines :
    Uuid → Direction → String → ℤ → ℤ → List JournalEntry → Result (List StatementLine)
scan_lines id normal currency opening total [] = ok []
scan_lines id normal currency opening total (e ∷ es) =
    let rest = scan_lines id normal currency opening (total +ℤ signed_minor normal e) es in
    Errors.◌>>=◌ (scan_int64 (signed_minor normal e)) (λ delta_minor.
      Errors.◌>>=◌ (scan_int64 (opening +ℤ (total +ℤ delta_minor))) (λ running_minor.
        Errors.◌>>=◌ (new_money delta_minor currency) (λ signed.
          Errors.◌>>=◌ (new_money running_minor currency) (λ running.
            Errors.◌>>=◌ (new_money e.amount.amount_minor currency) (λ amount.
              Errors.◌>>=◌ rest (λ lines. ok (
                record {
                  entry = record e { account_id = id; amount = amount };
                  signed = signed;
                  running_balance = running;
                }
                ∷ lines)))))))

-- `statement.Lines[n-1].RunningBalance`, or the opening balance.
unfoldable pub closing_balance : Money → List StatementLine → Money
closing_balance opening [] = opening
closing_balance opening (line ∷ lines) = closing_balance line.running_balance lines

-- The page's end: the lines that are kept, and where the next page starts.
unfoldable pub cut_page :
    ℕ → List StatementLine → Result (List StatementLine × Option StatementCursor)
cut_page limit lines =
    if ltb limit (length lines)
    then if limit == 0 then err panicked else (elim (get_elem? lines (limit - 1)) [
      | none ↦ err panicked
      | some last ↦ ok (take limit lines, some (cursor_of last.entry))
    ])
    else ok (lines, none)

-- `GetStatement`
unfoldable pub get_statement : Db → StatementQuery → Result Statement
get_statement db q =
    Errors.◌>>=◌ (or_error (db.accounts q.account_id) account_not_found) (λ account.
      let ids = physical db q.account_id in
      let c = start_cursor q in
      let normal = account.normal_balance in
      Errors.◌>>=◌ (scan_int64 (opening_minor normal ids c db.journal)) (λ minor.
        Errors.◌>>=◌
          (scan_lines q.account_id normal account.currency minor (pos 0)
            (take (suc q.limit) (by_time (entries_after ids c q.to db.journal))))
          (λ lines. Errors.◌>>=◌ (cut_page q.limit lines) (λ page.
            Errors.◌>>=◌ (new_money minor account.currency) (λ opening. ok (record {
              account_id = q.account_id;
              currency = account.currency;
              from = q.from;
              to = q.to;
              opening = opening;
              closing = closing_balance opening page.0;
              lines = page.0;
              next_cursor = page.1;
            }))))))
