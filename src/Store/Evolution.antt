-- ===== src/Store/Evolution.antt =====
-- What stays true of a database from one state to a later one.
use grasshopper.Base.{
  ℕ, ◌≤◌, ◌≡◌, refl, sym, ◌∙◌, subst, none, some, String, ◌==◌, nat_eq, string_eq, arith, inl, inr,
  Bool-cases, eq_of_test,
}
use grasshopper.Store.{Db, Chunk, Revision, Request, put}
use grasshopper.Store.Steps.{snap, Follows, Revises, Step, revise, answer, Reaches, here, next}
use grasshopper.Store.Preserve.{history_keeps}

-- `c'` is `c` or a later version of it: the number rises with every change, and the scope, the key
-- and the time of creation never change.
pub record Succeeds (c c' : Chunk) : Type 0 where
  pub rises : c.revision ≤ c'.revision
  pub memory_scope : c'.memory_scope ≡ c.memory_scope
  pub preference_key : c'.preference_key ≡ c.preference_key
  pub created_at : c'.created_at ≡ c.created_at
  pub same_version : c.revision ≡ c'.revision → c ≡ c'

-- No memory, no version in the history and no answer to a request is lost or overwritten.
pub record Evolves (db db' : Db) : Type 0 where
  pub memories :
      (i : ℕ) (c : Chunk)
      → db.chunks i ≡ some c
      → (c' : Chunk) × (db'.chunks i ≡ some c') × Succeeds c c'
  pub history :
      (i n : ℕ) (w : Revision)
      → db.memory_revisions i n ≡ some w
      → db'.memory_revisions i n ≡ some w
  pub answers :
      (r : String) (q : Request) → db.memory_requests r ≡ some q → db'.memory_requests r ≡ some q

Succeeds-refl : (c : Chunk) → Succeeds c c
Succeeds-refl c = record {
  rises = omega arith;
  memory_scope = refl;
  preference_key = refl;
  created_at = refl;
  same_version = λ _. refl;
}

Succeeds-trans : (a b c : Chunk) → Succeeds a b → Succeeds b c → Succeeds a c
Succeeds-trans a b c s t = record {
  rises = omega (arith, s.rises, t.rises);
  memory_scope = t.memory_scope ∙ s.memory_scope;
  preference_key = t.preference_key ∙ s.preference_key;
  created_at = t.created_at ∙ s.created_at;
  same_version = λ e.
      s.same_version (omega (arith, s.rises, t.rises))
      ∙ t.same_version (omega (arith, s.rises, t.rises));
}

pub Evolves-refl : (db : Db) → Evolves db db
Evolves-refl db = record {
  memories = λ i c e. (c, e, Succeeds-refl c);
  history = λ i n w e. e;
  answers = λ r q e. e;
}

pub Evolves-trans : {a b c : Db} → Evolves a b → Evolves b c → Evolves a c
Evolves-trans s t = record {
  memories = λ i c e.
      let (d, at, p) = s.memories i c e in
      let (d', at', p') = t.memories i d at in (d', at', Succeeds-trans c d d' p p');
  history = λ i n w e. t.history i n w (s.history i n w e);
  answers = λ r q e. t.answers r q (s.answers r q e);
}

follows-Succeeds : (old c : Chunk) → Follows old c → Succeeds old c
follows-Succeeds old c f = record {
  rises = omega (arith, f.revision);
  memory_scope = f.memory_scope;
  preference_key = f.preference_key;
  created_at = f.created_at;
  same_version = λ e. absurd (omega (arith, f.revision));
}

Revises-Evolves : {db db' : Db} (i : ℕ) (c : Chunk) → Revises i c db db' → Evolves db db'
Revises-Evolves {db} {db'} i c r = record {
  memories = λ j old e. elim (Bool-cases (i == j)) [
    | inl same ↦
        let at : db.chunks i ≡ some old =
          subst (λ k. db.chunks k ≡ some old) (sym (eq_of_test i j same)) e in
        (c, r.rows j ∙ ground arith, follows-Succeeds old c (r.follows old at))
    | inr other ↦ (old, r.rows j ∙ ground arith, Succeeds-refl old)
  ];
  history =
      λ j n w e. r.history j n ∙ history_keeps db.memory_revisions i c.revision j n (snap i c) w e;
  answers = λ s q e. r.requests s ∙ e;
}

answer-Evolves :
    {db db' : Db} (r : String) (q : Request)
    → db.memory_requests r ≡ none
    → db' ≡ record db { memory_requests = put db.memory_requests r q }
    → Evolves db db'
answer-Evolves {db} r q free e = subst (Evolves db) (sym e) (record {
  memories = λ i c at. (c, at, Succeeds-refl c);
  history = λ i n w at. at;
  answers = λ s old at. elim (Bool-cases (r == s)) [
    | inl same ↦ cc (subst (λ x. db.memory_requests x ≡ none) (eq_of_test r s same) free)
    | inr other ↦ rw other at
  ];
})

Step-Evolves : {db db' : Db} → Step db db' → Evolves db db'
Step-Evolves (revise i c r) = Revises-Evolves i c r
Step-Evolves (answer r q free e) = answer-Evolves r q free e

-- Whatever a database reaches, it has evolved to.
pub Reaches-Evolves : {db db' : Db} → Reaches db db' → Evolves db db'
Reaches-Evolves {db} here = Evolves-refl db
Reaches-Evolves (next r st) = Evolves-trans (Reaches-Evolves r) (Step-Evolves st)
