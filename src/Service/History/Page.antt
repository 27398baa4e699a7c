-- ===== src/Service/History/Page.antt =====
-- What a page of an account's history holds.
use equilibra.Common.{
  ◌≡◌, refl, sym, ap, ◌∙◌, subst, ℕ, suc, ◌≤◌, ◌⊎◌, inl, inr, Bool, true, false, List, [], ◌∷◌, map,
  length, take, All, All-take, arith, if◌then◌else◌,
}
use equilibra.Common.Int.{ℤ, pos, negsuc, ◌<ℤ◌, ◌≤ℤ◌, ltb_ℤ, ◌==ℤ◌, max_int64}
use equilibra.Errors.{Outcome, ok, err, account_not_found}
use equilibra.Storage.Schema.{LedgerEntry}
use equilibra.Storage.Session.{Db, Session, or_not_found}
use equilibra.Storage.Session.Inversion.{bind-ok, statement-ok}
use equilibra.Storage.Querier.{get_account}
use equilibra.Storage.WithTx.Inversion.{with_tx-ok}
use equilibra.Storage.Querier.History.{history_rows, get_account_history}
use equilibra.Storage.WithTx.{World, Conditions}
use equilibra.Service.Types.{Statement, StatementEntry}
use equilibra.Service.History.{
  account_transactions_history, statement_of, statement_entry, clamp_limit, next_cursor, last_id,
  history_body,
}
use equilibra.Service.History.Rows.{
  Descending, Descending-take, last_id-lowest, length-take_le, history_rows-below,
  history_rows-Descending,
}

length-map : (xs : List LedgerEntry) → length (map statement_entry xs) ≡ length xs
length-map [] = refl
length-map (x ∷ xs) = ap suc (length-map xs)

clamp_limit-le : (limit : ℤ) → clamp_limit limit ≤ℤ pos 999
unfolding clamp_limit
clamp_limit-le limit = ground arith

-- What the query's bound is: no bound where `before` is zero.
abbrev pub bound_of : ℤ → ℤ
bound_of before = if before ==ℤ pos 0 then max_int64 else before

get_account_history-ok :
    (account limit before : ℤ) (s : Session) {rows : List LedgerEntry} {t : Session}
    → get_account_history account limit before s ≡ (ok rows, t)
    → (n : ℕ) × (d : Db) × (limit ≡ pos n)
      × (rows ≡ take n (history_rows account (bound_of before) d))
unfolding get_account_history
get_account_history-ok account (pos n) before s h =
    let (u, same, ran) = statement-ok _ s h in (n, u.db, refl, cc)
get_account_history-ok account (negsuc n) before s h =
    let (u, same, ran) = statement-ok _ s h in absurd (cc)

-- A page: not too long, newest first, all below the bound, and the cursor of a next page is not
-- above any entry of this one.
pub record IsPage (before : ℤ) (st : Statement) : Type 0 where
  pub size : length st.entries ≤ 999
  pub below : All (λ (e : StatementEntry). e.entry_id <ℤ bound_of before) st.entries
  pub cursor :
      (st.next_cursor ≡ pos 0)
      ⊎ All (λ (e : StatementEntry). st.next_cursor ≤ℤ e.entry_id) st.entries

All-map :
    (P : StatementEntry → Type 0) (xs : List LedgerEntry)
    → All (λ (x : LedgerEntry). P (statement_entry x)) xs
    → All P (map statement_entry xs)
All-map P [] h = tt
All-map P (x ∷ xs) h = (h.0, All-map P xs h.1)

next_cursor-lowest :
    (limit : ℤ) (rows : List LedgerEntry)
    → Descending rows
    → (next_cursor limit rows ≡ pos 0)
      ⊎ All (λ (y : LedgerEntry). next_cursor limit rows ≤ℤ y.id) rows
unfolding next_cursor last_id
next_cursor-lowest limit [] h = inl (ground arith)
next_cursor-lowest limit (x ∷ es) h =
    either (ltb_ℤ (pos (length (x ∷ es))) limit) (last_id-lowest x es h)
  where
    either :
        (b : Bool)
        → All (λ (y : LedgerEntry). last_id x.id es ≤ℤ y.id) (x ∷ es)
        → ((if b then pos 0 else last_id x.id es) ≡ pos 0)
          ⊎ All (λ (y : LedgerEntry). (if b then pos 0 else last_id x.id es) ≤ℤ y.id) (x ∷ es)
    either true k = inl refl
    either false k = inr k

rows-IsPage :
    (account limit before : ℤ) (n : ℕ) (d : Db)
    → n ≤ 999
    → let rows = take n (history_rows account (bound_of before) d) in
      IsPage before
        (record { entries = map statement_entry rows; next_cursor = next_cursor limit rows })
unfolding statement_entry
rows-IsPage account limit before n d small =
    let all = history_rows account (bound_of before) d in
    let rows = take n all in
    record {
      size = omega (arith, length-map rows, length-take_le n all, small);
      below = All-map _ rows (All-take _ n all (history_rows-below account (bound_of before) d));
      cursor =
          elim (next_cursor-lowest limit rows
            (Descending-take n all (history_rows-Descending account (bound_of before) d))) [
              | inl none_left ↦ inl none_left
              | inr lowest ↦ inr (All-map _ rows lowest)
            ];
    }

statement_of-ok :
    (limit : ℤ) (r : Outcome (List LedgerEntry) × World) {st : Statement} {w' : World}
    → statement_of limit r ≡ (ok st, w')
    → (rows : List LedgerEntry) × (r ≡ (ok rows, w'))
      × (st ≡ record { entries = map statement_entry rows; next_cursor = next_cursor limit rows })
statement_of-ok limit (ok rows, w) h = (rows, cc, cc)
statement_of-ok limit (err e, w) h = cc

-- A page of an account's history that is answered has at most 999 entries, whatever limit is asked
-- for, all with ids below `before` unless that is zero; and its cursor is zero or at most the id
-- of every entry on it.
pub history-IsPage :
    (c : Conditions) (account limit before : ℤ) (w : World) (st : Statement) (w' : World)
    → account_transactions_history c account limit before w ≡ (ok st, w')
    → IsPage before st
unfolding account_transactions_history history_body
history-IsPage c account limit before w st w' h =
    let (rows, done, is) = statement_of-ok (clamp_limit limit) _ h in
    let (t, ran, _) = with_tx-ok c (history_body account (clamp_limit limit) before) w done in
    let (_, u, _, read) = bind-ok (or_not_found (get_account account) account_not_found) _ _ ran in
    let (n, d, size, taken) = get_account_history-ok account (clamp_limit limit) before u read in
    let small : n ≤ 999 = omega (arith, subst (λ l. l ≤ℤ pos 999) size (clamp_limit-le limit)) in
    subst (IsPage before)
      (sym (
        is
        ∙ ap
            (λ rs. record {
              entries = map statement_entry rs;
              next_cursor = next_cursor (clamp_limit limit) rs;
            })
            taken))
      (rows-IsPage account (clamp_limit limit) before n d small)
