-- ===== src/Store/Tx.antt =====
-- Transactions: actions on the database that may fail. What was written before an error is still
-- there beside it; `commit_or_rollback` drops it.
use grasshopper.Base.{true, false, Bool, ◌≡◌, refl, if◌then◌else◌, true}
use grasshopper.Outcome.{Error, Result, ok, err}
use grasshopper.Store.{Db}

pub data Outcome {ℓ} (A : Type ℓ) : Type ℓ where
  done : A → Db → Outcome A
  failed : Error → Db → Outcome A

abbrev pub Tx {ℓ} : Type ℓ → Type ℓ
Tx A = Db → Outcome A

module _ {ℓ} {A : Type ℓ} where
  abbrev pub pure : A → Tx A
  pure a db = done a db

  abbrev pub fail : Error → Tx A
  fail e db = failed e db

  abbrev pub lift_result : Result A → Tx A
  lift_result (ok a) db = done a db
  lift_result (err e) db = failed e db

  -- A read: it changes nothing.
  unfoldable pub reads : (Db → Result A) → Tx A
  reads f db = lift_result (f db) db

  -- tx.Rollback on an error, tx.Commit otherwise
  abbrev pub settle : Outcome A → Db → Outcome A
  settle (done a db') db = done a db'
  settle (failed e db') db = failed e db

  unfoldable pub commit_or_rollback : Tx A → Tx A
  commit_or_rollback m db = settle (m db) db

abbrev pub modify : (Db → Db) → Tx (Unit {0})
modify f db = done tt (f db)

abbrev pub check : Bool → Error → Tx (Unit {0})
check b e db = if b then done tt db else failed e db

module _ {ℓ κ} {A : Type ℓ} {B : Type κ} where
  abbrev pub continue : Outcome A → (A → Tx B) → Outcome B
  continue (done a db) f = f a db
  continue (failed e db) f = failed e db

  infixl 5 ◌>>=◌
  unfoldable pub ◌>>=◌ : Tx A → (A → Tx B) → Tx B
  ◌>>=◌ m f db = continue (m db) f

  -- A block that succeeds: its first part did, and the rest from there.
  pub bind_done :
      (m : Tx A) (f : A → Tx B) (db : Db) {b : B} {db' : Db}
      → (m >>= f) db ≡ done b db'
      → (a : A) × (mid : Db) × (m db ≡ done a mid) × (f a mid ≡ done b db')
  unfolding ◌>>=◌
  bind_done m f db {b} {db'} h = split (m db) refl h
    where
      split :
          (o : Outcome A)
          → m db ≡ o
          → continue o f ≡ done b db'
          → (a : A) × (mid : Db) × (m db ≡ done a mid) × (f a mid ≡ done b db')
      split (done a mid) e k = (a, mid, e, k)
      split (failed x mid) e k = cc

  pub reads_done :
      (r : Db → Result A) (f : A → Tx B) (db : Db) {b : B} {db' : Db}
      → (reads r >>= f) db ≡ done b db'
      → (a : A) × (r db ≡ ok a) × (f a db ≡ done b db')
  unfolding ◌>>=◌ reads
  reads_done r f db {b} {db'} h = split (r db) refl h
    where
      split :
          (o : Result A)
          → r db ≡ o
          → continue (lift_result o db) f ≡ done b db'
          → (a : A) × (r db ≡ ok a) × (f a db ≡ done b db')
      split (ok a) e k = (a, e, k)
      split (err x) e k = cc

infixl 5 ◌>>◌
abbrev pub ◌>>◌ {ℓ κ} : {A : Type ℓ} {B : Type κ} → Tx A → Tx B → Tx B
m >> k = m >>= λ _. k

module _ {ℓ} {A : Type ℓ} where
  pub done_value : {a b : A} {db db' : Db} → ◌≡◌ {A = Outcome A} (done a db) (done b db') → a ≡ b
  done_value h = cc

  pub done_state : {a b : A} {db db' : Db} → ◌≡◌ {A = Outcome A} (done a db) (done b db') → db ≡ db'
  done_state h = cc

  pub check_done :
      (b : Bool) (e : Error) (f : Unit {0} → Tx A) (db : Db) {a : A} {db' : Db}
      → (check b e >>= f) db ≡ done a db'
      → (b ≡ true) × (f tt db ≡ done a db')
  unfolding ◌>>=◌
  check_done true e f db h = (refl, h)
  check_done false e f db h = cc
