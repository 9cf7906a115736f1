-- ===== src/Api/Registers.antt =====
-- What the store promises, without its tables: numbered versions of memories, to which versions are
-- only added, and answers, of which each is given once. Every sequence of calls is such a history.
use grasshopper.Store.Requests.{insert_or_ignore}
use grasshopper.Api.Facts.{WellFormed, after-Sound}
use grasshopper.Api.{perform, state_after, run, Call}
use grasshopper.Store.Inputs.{Digests}
use grasshopper.Store.Preserve.{Reaches-Inv}
use grasshopper.Store.Invariant.{Inv}
use grasshopper.Store.Steps.{Revises, Step, Reaches, revise, answer, here, next, snap}
use grasshopper.Store.{Record, Chunk, Request, Db, put, scan_record, Revision}
use grasshopper.Base.{
  if◌then◌else◌, Option-cases, ◌==◌, nat_eq, string_eq, option_eq, list_eq, ℕ, suc, String, ◌≡◌,
  refl, sym, inl, inr, ◌&&◌, Option, none, some, List, [], ◌∷◌, arith, Bool-cases, and-left,
  and-right, eq_of_test, ap, ◌∙◌, subst,
}

-- The newest number of each memory, its versions by number, and the answers to requests.
pub record Registers : Type 0 where
  pub latest : ℕ → Option ℕ
  pub version : ℕ → ℕ → Option Record
  pub answered : String → Option Request

abbrev pub revision_of : Option Chunk → Option ℕ
revision_of none = none
revision_of (some c) = some c.revision

abbrev pub stored_of : Option Revision → Option Record
stored_of none = none
stored_of (some v) = some v.stored

-- The registers that a database stands for; its indexes, texts and embeddings are forgotten.
unfoldable pub registers : Db → Registers
registers db = record {
  latest = λ i. revision_of (db.chunks i);
  version = λ i n. stored_of (db.memory_revisions i n);
  answered = db.memory_requests;
}

abbrev pub next_number : Option ℕ → ℕ
next_number none = 1
next_number (some n) = suc n

-- A version is added under the next number, or a request that had no answer gets one.
pub data Adds (a b : Registers) : Type 0 where
  add_version :
      (i : ℕ) (r : Record)
      → a.version i (next_number (a.latest i)) ≡ none
      → ((j : ℕ) → b.latest j ≡ (if i == j then some (next_number (a.latest i)) else a.latest j))
      → ((j n : ℕ)
          → b.version j n
            ≡ (if i == j && next_number (a.latest i) == n then some r else a.version j n))
      → ((q : String) → b.answered q ≡ a.answered q)
      → Adds a b
  add_answer :
      (q : String) (answer : Request)
      → a.answered q ≡ none
      → ((p : String) → b.answered p ≡ (if q == p then some answer else a.answered p))
      → ((j : ℕ) → b.latest j ≡ a.latest j)
      → ((j n : ℕ) → b.version j n ≡ a.version j n)
      → Adds a b

pub data Grows (a : Registers) : Registers → Type 0 where
  same_registers : Grows a a
  then_adds : {mid b : Registers} → Grows a mid → Adds mid b → Grows a b

Grows-trans : {a b c : Registers} → Grows a b → Grows b c → Grows a c
Grows-trans g same_registers = g
Grows-trans g (then_adds h s) = then_adds (Grows-trans g h) s

Revises-number :
    (i : ℕ) (c : Chunk) {db db' : Db}
    → Revises i c db db'
    → next_number ((registers db).latest i) ≡ c.revision
unfolding registers
Revises-number i c {db} r = split (db.chunks i) refl
  where
    split : (old : Option Chunk) → db.chunks i ≡ old → next_number (revision_of old) ≡ c.revision
    split none e = sym (r.starts e)
    split (some old) e = sym (r.follows old e).revision

-- The next number is free, since the history has no number above the newest.
Revises-free :
    (i : ℕ) (c : Chunk) {db db' : Db}
    → Inv db
    → Revises i c db db'
    → db.memory_revisions i c.revision ≡ none
Revises-free i c {db} v r = elim (Option-cases (db.memory_revisions i c.revision)) [
  | inl free ↦ free
  | inr (w, taken) ↦
      let (old, found, below, _, _, _) = v.past i c.revision w taken in
      absurd (omega (arith, (r.follows old found).revision, below))
]

revision_of-put :
    (rows : ℕ → Option Chunk) (i j n : ℕ) (c : Chunk)
    → n ≡ c.revision
    → revision_of (put rows i c j) ≡ (if i == j then some n else revision_of (rows j))
revision_of-put rows i j n c e = elim (Bool-cases (i == j)) [
  | inl is_it ↦ rw is_it (ap some (sym e))
  | inr other ↦ rw other refl
]

stored_of-insert :
    (rows : ℕ → ℕ → Option Revision) (i n j m : ℕ) (v : Revision)
    → rows i n ≡ none
    → stored_of (insert_or_ignore rows i n v j m)
      ≡ (if i == j && n == m then some v.stored else stored_of (rows j m))
stored_of-insert rows i n j m v free = elim (Bool-cases (i == j && n == m)) [
  | inl is_it ↦
      let at : rows j m ≡ none =
        subst (λ (x : ℕ × ℕ). rows x.0 x.1 ≡ none)
          (λ k. (
            eq_of_test i j (and-left (i == j) _ is_it) k,
            eq_of_test n m (and-right (i == j) _ is_it) k,
          ))
          free in
      rw (is_it, at) refl
  | inr other ↦ rw other refl
]

Step-Adds : {db db' : Db} → Inv db → Step db db' → Adds (registers db) (registers db')
unfolding registers
Step-Adds {db} {db'} v (revise i c r) =
    let number : next_number (revision_of (db.chunks i)) ≡ c.revision = Revises-number i c r in
    let free = Revises-free i c v r in
    add_version i (scan_record i c)
      (subst (λ n. stored_of (db.memory_revisions i n) ≡ none) (sym number) (ap stored_of free))
      (λ j. ap revision_of (r.rows j) ∙ revision_of-put db.chunks i j _ c number)
      (λ j m.
        ap stored_of (r.history j m)
        ∙ subst
            (λ n. stored_of (insert_or_ignore db.memory_revisions i c.revision (snap i c) j m) ≡ (
              if i == j && n == m
              then some (scan_record i c)
              else stored_of (db.memory_revisions j m)))
            (sym number) (stored_of-insert db.memory_revisions i c.revision j m (snap i c) free))
      r.requests
Step-Adds {db} {db'} v (answer q a free e) =
    subst (λ w. Adds (registers db) (registers w)) (sym e)
      (add_answer q a free (λ p. refl) (λ j. refl) (λ j n. refl))

-- Every step of the store adds to the registers.
Reaches-Grows : {db db' : Db} → Inv db → Reaches db db' → Grows (registers db) (registers db')
Reaches-Grows v here = same_registers
Reaches-Grows v (next path s) = then_adds (Reaches-Grows v path) (Step-Adds (Reaches-Inv path v) s)

-- From a well-formed database, whatever calls are made, failed ones included, what they do to the
-- registers is to add versions under the next number and to answer requests once.
pub run-Grows :
    (d : Digests) (cs : List Call) (db : Db)
    → WellFormed db
    → Grows (registers db) (registers (run d cs db))
unfolding run WellFormed
run-Grows d [] db w = same_registers
run-Grows d (c ∷ cs) db (v, one) =
    let s = after-Sound d c db v in
    Grows-trans (Reaches-Grows v s.path)
      (run-Grows d cs (state_after (perform d c db)) (Reaches-Inv s.path v, s.keeps one))
