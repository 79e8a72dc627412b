-- ===== src/Engine/Lifecycle/Watched.antt =====
-- The watchdog of qingtian_engine/lifecycle.py is a sequence of calls of `apply`.
use qingtian_ai.Engine.Lifecycle.{Database, Host, Response}
use qingtian_ai.Engine.Lifecycle.History.{Reachable, called, step}
use qingtian_ai.Engine.Lifecycle.Snapshots.{snapshot}
use qingtian_ai.Engine.Lifecycle.Watchdog.{Tally, is_race, no_counts, reconcile_due, tally, visit}
use qingtian_ai.Exec.{Exec, Result, attempt, err, fetch, lift, ok, pure, resume, statement, ◌>>=◌}
use qingtian_ai.Prelude.{Bool-cases, List, String, [], inl, inr, ℕ, ◌∷◌}

-- the state an action leaves, whether it returns or raises
module _ {S A B : Type 0} (Q : S → Type 0) where
  resumed_by :
      (k : A → Exec S B) (x : Result A × S)
      → Q x.1
      → ((a : A) (s : S) → Q s → Q (k a s).1)
      → Q (resume x.0 k x.1).1
  resumed_by k (ok a, s) q h = h a s q
  resumed_by k (err e, s) q h = q

  after_bind :
      (m : Exec S A) (k : A → Exec S B) (s : S)
      → Q (m s).1
      → ((a : A) (t : S) → Q t → Q (k a t).1)
      → Q ((m >>= k) s).1
  unfolding ◌>>=◌
  after_bind m k s q h = resumed_by k (m s) q h

  after_attempt :
      (m : Exec S A) (k : Result A → Exec S B) (s : S)
      → Q (m s).1
      → ((r : Result A) (t : S) → Q t → Q (k r t).1)
      → Q (attempt m k s).1
  unfolding attempt
  after_attempt m k s q h = h (m s).0 (m s).1 q

module _ (host : Host) (now : ℕ) where
  after_snapshot :
      (Q : Database → Type 0) (task_id : String) (db : Database)
      → Q db
      → Q (snapshot host now task_id db).1
  unfolding snapshot fetch statement
  after_snapshot Q task_id db q = after_bind Q _ _ db q λ _ s p. after_bind Q _ _ s p λ _ t r. r

  after_tally :
      (Q : Database → Type 0) (counts : Tally) (x : Result Response) (db : Database)
      → Q db
      → Q (tally counts x db).1
  unfolding tally pure lift
  after_tally Q counts (ok r) db q = q
  after_tally Q counts (err e) db q = elim (Bool-cases (is_race e)) [
    | inl b ↦ rw b q
    | inr b ↦ rw b q
  ]

  visit-Reachable :
      (due : List (String × List (List String))) (counts : Tally) (db : Database)
      → Reachable host db
      → Reachable host (visit host now due counts db).1
  unfolding visit pure
  visit-Reachable [] counts db r = r
  visit-Reachable ((task_id, ds) ∷ rest) counts db r =
      after_bind (Reachable host) _ _ db (after_snapshot (Reachable host) task_id db r) λ _ db1 r1.
        after_bind (Reachable host) _ _ db1
          (after_attempt (Reachable host) _ _ db1 (step r1 (called _))
            λ x db2 r2. after_tally (Reachable host) counts x db2 r2)
          λ counts' db3 r3. visit-Reachable rest counts' db3 r3

  -- a pass of the watchdog, whichever tasks are due and however it ends
  pub reconcile_due-Reachable :
      (db : Database) → Reachable host db → Reachable host (reconcile_due host now db).1
  unfolding reconcile_due statement
  reconcile_due-Reachable db r =
      after_bind (Reachable host) _ _ db r λ due db1 r1. visit-Reachable due no_counts db1 r1
