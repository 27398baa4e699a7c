-- ===== src/Service/Overdraft.antt =====
-- No user's balance goes below zero, except by a reversal.
use equilibra.Common.{
  ◌≡◌, sym, ap, ◌∙◌, subst, true, false, not, ◌&&◌, ◌||◌, List, some, arith, inl, inr, Bool-cases,
  some_injective,
}
use equilibra.Common.Int.{
  ℤ, pos, ◌-ℤ◌, ◌<ℤ◌, ◌≤ℤ◌, ltb_ℤ, ◌==ℤ◌, ==ℤ_iff, IsInt64, in_int64, sub64-eq-sub, -ℤ_parts,
  int_laws,
}
use equilibra.Storage.Schema.{AccountRow, TxType, is_user, is_reversal}
use equilibra.Storage.Session.{Db, Session}
use equilibra.Storage.Querier.{balance, account_with, scan_account}
use equilibra.Storage.WithTx.{World, Conditions}
use equilibra.Service.Types.{TransferParams, Result}
use equilibra.Service.Core.{is_overdrawn}
use equilibra.Service.Core.Inversion.{IsPosted}
use equilibra.Service.Requests.{Request, serve, AllTyped, AllOfType}
use equilibra.Service.Requests.Induction.{Keeps, serve-keeps}
use equilibra.Service.DoubleEntry.{IsBalanced, IsBalanced-Keeps}
use equilibra.Service.Movement.{moved, IsPosted-moves}

-- Every account of a user has a balance of zero or more.
pub record IsCovered (db : Db) : Type 0 where
  pub balanced : IsBalanced db
  pub users :
      (id : ℤ) (row : AccountRow)
      → account_with id db.accounts ≡ some row
      → is_user row.type ≡ true
      → pos 0 ≤ℤ balance id db.entries

abbrev pub NotReversal : TxType → Type 0
NotReversal t = is_reversal t ≡ false

in_range : (b : ℤ) → in_int64 b ≡ true → IsInt64 b
in_range b h = (ground arith, ground arith)

not_below : (x y : ℤ) → (ltb_ℤ (x -ℤ y) (pos 0) && not (not true || false)) ≡ false → y ≤ℤ x
not_below x y e = ground (arith, -ℤ_parts x y)

-- The overdraft check of a user's account that is not yet overdrawn: the amount is there.
enough :
    (source : AccountRow) (p : TransferParams) (b : ℤ)
    → is_user source.type ≡ true
    → NotReversal p.type
    → pos 0 ≤ℤ b
    → in_int64 b ≡ true
    → pos 0 <ℤ p.amount
    → IsInt64 p.amount
    → is_overdrawn (scan_account source) p b ≡ false
    → p.amount ≤ℤ b
unfolding is_overdrawn
enough source p b of_user plain nonneg fits positive typed h =
    let exact = sub64-eq-sub b p.amount nonneg (in_range b fits) positive typed in
    not_below b p.amount (rw (of_user, plain, exact) at h)

moved_nonneg :
    (from to amount a b : ℤ)
    → pos 0 <ℤ amount
    → pos 0 ≤ℤ b
    → ((from ==ℤ a) ≡ true → amount ≤ℤ b)
    → pos 0 ≤ℤ moved from to amount a b
moved_nonneg from to amount a b positive nonneg there = elim (Bool-cases (from ==ℤ a)) [
  | inl is_source ↦ grind (int_laws, there is_source)
  | inr other ↦ grind int_laws
]

-- The balance of a user's account behind a posting.
covered_user :
    (p : TransferParams) (s : Session) (r : Result) (t : Session) (id : ℤ) (row : AccountRow)
    → NotReversal p.type
    → IsInt64 p.amount
    → IsPosted p s r t
    → account_with id s.db.accounts ≡ some row
    → is_user row.type ≡ true
    → pos 0 ≤ℤ balance id s.db.entries
    → pos 0 ≤ℤ balance id t.db.entries
covered_user p s r t id row plain typed i found of_user nonneg =
    rw (IsPosted-moves p s r t id typed i) (
      moved_nonneg p.from p.to p.amount id (balance id s.db.entries) i.positive nonneg λ is_source.
        let same : p.from ≡ id = (==ℤ_iff p.from id).0 is_source in
        let at_source : balance p.from s.db.entries ≡ balance id s.db.entries =
          ap (λ x. balance x s.db.entries) same in
        let is_row : row ≡ i.source =
          some_injective
            (sym found ∙ ap (λ x. account_with x s.db.accounts) (sym same) ∙ i.source_found) in
        enough i.source p (balance id s.db.entries)
          (subst (λ (x : AccountRow). is_user x.type ≡ true) is_row of_user) plain nonneg
          (rw at_source at i.fits) i.positive typed (rw at_source at i.covered))

IsCovered-Keeps : Keeps NotReversal IsCovered
IsCovered-Keeps = record {
  post = λ p s r t plain typed i h. record {
    balanced = IsBalanced-Keeps.post p s r t tt typed i h.balanced;
    users = λ id row found of_user.
        let same : t.db.accounts ≡ s.db.accounts = ap (λ d. d.accounts) i.db in
        let before = rw same at found in
        covered_user p s r t id row plain typed i before of_user (h.users id row before of_user);
  };
  status =
      λ id db h. record { balanced = IsBalanced-Keeps.status id db h.balanced; users = h.users };
  stored = λ db h. h.balanced.typed;
}

-- From balanced tables in which no user's balance is negative, after any requests but reversals,
-- with int64 amounts and under any faults and commits, no user's balance is negative.
pub serve-IsCovered :
    (qs : List (Conditions × Request)) (w : World)
    → AllOfType NotReversal qs
    → AllTyped qs
    → IsCovered w.db
    → IsCovered (serve qs w).db
serve-IsCovered qs w plain typed h = serve-keeps IsCovered-Keeps qs w plain typed h
