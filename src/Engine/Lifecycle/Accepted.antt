-- ===== src/Engine/Lifecycle/Accepted.antt =====
-- `apply` of qingtian_engine/lifecycle.py: a call that returns has made writes of its handler, and
-- one that raises has made none.
use qingtian_ai.Engine.Lifecycle.{
  Database, EngineTask, Host, Request, Response, Version, engine_task_key, execution_key,
  handoff_key, intake_key, managed_run_key, notice_key, version_key,
}
use qingtian_ai.Engine.Lifecycle.Apply.{
  CallHeader, LifecycleCall, actions, apply, apply_new, apply_prior, bump, bumped_from, has_request,
  header, insert_request, prior_request, request_value,
}
use qingtian_ai.Engine.Lifecycle.Audit.{insert_event}
use qingtian_ai.Engine.Lifecycle.Change.{Changes, core, none_yet}
use qingtian_ai.Engine.Lifecycle.Distinct.{Distinct}
use qingtian_ai.Engine.Lifecycle.Handled.{
  IsHandlerOf, Lawful, actions-named, handlers-Lawful, lookup-All, lookup-Named,
}
use qingtian_ai.Engine.Lifecycle.Returned.{
  Post-ran, Returns, Returns-and_then, Returns-ok, some_same,
}
use qingtian_ai.Engine.Lifecycle.Snapshots.{snapshot}
use qingtian_ai.Engine.Waiting.{lookup}
use qingtian_ai.Exec.{ok}
use qingtian_ai.Exec.Reads.{Post-reads, Post-statement_last}
use qingtian_ai.Exec.Rules.{
  Post, Post-bind, Post-check, Post-fetch, Post-modify, Post-modify_last, Post-mono, Post-pure,
  Post-statement, found-ok,
}
use qingtian_ai.Exec.Rules.Rollback.{Atomic, Atomic-lift, Atomic-transaction_last}
use qingtian_ai.Json.{Value}
use qingtian_ai.Prelude.{
  Bool, Bool-cases, List, Option, String, [], any, ap, arith, eq_self, eq→≡, false, first, inl, inr,
  nat_eq, nat_eq→≡, none, not-true, refl, some, subst, sym, true, ℕ, ◌++◌, ◌+◌, ◌||◌, ◌∙◌, ◌∷◌, ◌≡◌,
  ◌⊎◌,
}
use qingtian_ai.Store.Table.{find, find-update_self, key-find}

module _ (host : Host) where
  pub Post-snapshot :
      (now : ℕ) (task_id : String) {db : Database}
      → Post (snapshot host now task_id) db (λ s db'.
        (db' ≡ db)
        × ((v : Version) × (find task_id db.versions ≡ some v) × (s.revision ≡ v.revision)))
  unfolding snapshot
  Post-snapshot now task_id =
      Post-fetch _ _ _
        λ t _. Post-fetch _ _ _ λ v here. Post-statement_last _ _ (refl, (v, here, refl))

  -- a call that `apply` has accepted and that it had not seen before
  pub record Applied (c : LifecycleCall) (d : CallHeader) (db : Database) (r : Response)
      (db' : Database) : Type 0 where
    pub changes : Changes (core db) (core db')
    pub task : EngineTask
    pub its_task : find c.task_id db.tasks ≡ some task
    pub handled : IsHandlerOf c.action d.handler
    pub result : Value
    pub left : Database
    pub ran : d.handler host c.fresh task c.payload c.now db ≡ (ok result, left)
    pub written : core db' ≡ core left
    pub written_notices : db'.outbox ≡ left.outbox
    pub answered : r.outcome ≡ result
    pub before : Version
    pub had : find c.task_id db.versions ≡ some before
    pub was_current : before.revision ≡ d.expected
    pub after : Version
    pub has : find c.task_id db'.versions ≡ some after
    pub advanced : after.revision ≡ d.expected + 1
    pub reply : r.revision ≡ d.expected + 1
    pub is_new : r.reused ≡ false
    pub stored : Request
    pub recorded : prior_request c.task_id d.idempotency_key db' ≡ some stored
    pub same_hash : stored.request_json ≡ d.request_hash
    pub same_reply : stored.response ≡ r

  -- UPDATE ... SET revision=revision+1 WHERE revision=?, after a handler that may have written tasks
  bumped-revision :
      (n : ℕ) (w : Version)
      → (w.revision ≡ n) ⊎ (w.revision ≡ n + 1)
      → (bumped_from n w).revision ≡ n + 1
  bumped-revision n w h = elim (Bool-cases (nat_eq w.revision n)) [
    | inl b ↦ rw b (ap (λ m. m + 1) (nat_eq→≡ _ _ b))
    | inr b ↦ rw b (ground arith)
  ]

  bumped-key : (n : ℕ) (w : Version) → (bumped_from n w).task_id ≡ w.task_id
  bumped-key n w = elim (Bool-cases (nat_eq w.revision n)) [ inl b ↦ rw b refl | inr b ↦ rw b refl ]

  first-append :
      {A : Type 0} (p : A → Bool) (xs : List A) (r : A)
      → any p xs ≡ false
      → p r ≡ true
      → first p (xs ++ r ∷ []) ≡ some r
  unfolding any first
  first-append p [] r h q = rw q refl
  first-append p (x ∷ xs) r h q = elim (Bool-cases (p x)) [
    | inl b ↦ absurd (cc (subst (λ c. (c || any p xs) ≡ false) b h))
    | inr b ↦ rw b (first-append p xs r (subst (λ c. (c || any p xs) ≡ false) b h) q)
  ]

  has_request_self :
      (k i h : String) (r : Response) (at : ℕ)
      → has_request k i (record {
        task_id = k;
        idempotency_key = i;
        request_json = h;
        response = r;
        created_at = at;
      })
        ≡ true
  unfolding has_request
  has_request_self k i h r at = rw (eq_self k, eq_self i) refl

  Post-apply_new :
      (c : LifecycleCall) (d : CallHeader) (db : Database)
      → Lawful host d.handler
      → IsHandlerOf c.action d.handler
      → Distinct db.executions
      → Post (apply_new host c d) db (Applied c d db)
  unfolding apply_new bump insert_event insert_request prior_request
  Post-apply_new c d db lawful named k = Post-fetch _ _ _ λ t found_task. Post-fetch _ _ _ λ v had.
      Post-check _ _ _ λ current. Post-reads _ _ (Post-snapshot c.now c.task_id) λ before _.
        Post-bind _ _ (
          Post-mono
            (Post-ran (
              lawful c.fresh t c.payload c.now db
                (subst (λ j. find j db.tasks ≡ some t)
                  (sym (key-find db.tasks c.task_id found_task)) found_task)
                k))
            λ outcome db1 (made, runs).
              let was : v.revision ≡ d.expected = nat_eq→≡ _ _ current in
              let (w, now_has, advance) = made.1 c.task_id v had in
              Post-modify _ _ (
                Post-reads _ _ (Post-snapshot c.now c.task_id) λ after seen. Post-bind _ _ (
                  Post-check _ _ _ λ _. Post-modify_last _ (
                    Post-bind _ _ (
                      Post-check _ _ _ λ unused. Post-modify_last _ (
                        Post-pure _ _ (
                          let here =
                            find-update_self c.task_id (bumped_from d.expected) db1.versions
                              (λ x. bumped-key d.expected x) now_has in
                          let bumped_by_one =
                            bumped-revision d.expected w
                              (subst (λ n. (w.revision ≡ n) ⊎ (w.revision ≡ n + 1)) was advance) in
                          record {
                            changes = made.0;
                            task = t;
                            its_task = found_task;
                            handled = named;
                            result = outcome;
                            left = db1;
                            ran = runs;
                            written = refl;
                            written_notices = refl;
                            answered = refl;
                            before = v;
                            had = had;
                            was_current = was;
                            after = bumped_from d.expected w;
                            has = here;
                            advanced = bumped_by_one;
                            reply =
                                (let (x, there, same) = seen in
                                  same
                                  ∙ ap (λ (y : Version). y.revision) (some_same (sym there ∙ here))
                                  ∙ bumped_by_one);
                            is_new = refl;
                            stored = _;
                            recorded =
                                first-append (has_request c.task_id d.idempotency_key) db1.requests
                                  _ (not-true _ unused) (has_request_self _ _ _ _ _);
                            same_hash = refl;
                            same_reply = refl;
                          })))))))

  -- what the checks in front of the transaction have read
  abbrev IsRead : LifecycleCall → CallHeader → Type 0
  IsRead c d =
      (lookup c.action actions ≡ some d.handler)
      × (d.request_hash ≡ host.hash (host.dumps (request_value c)))

  header-IsRead : (c : LifecycleCall) → Returns (header host c) (IsRead c)
  unfolding header
  header-IsRead c = Returns-and_then _ _ λ _ _. Returns-and_then _ _ λ handler look.
      Returns-and_then _ _ λ _ _. Returns-and_then _ _ λ _ _. Returns-and_then _ _ λ _ _.
        Returns-and_then _ _ λ _ _.
          Returns-and_then _ _
            λ _ _. Returns-and_then _ _ λ _ _. Returns-ok _ (found-ok _ _ look, refl)

  -- What a call of `apply` may do when it returns.
  pub data Outcome (c : LifecycleCall) (d : CallHeader) (db : Database) (r : Response)
      (db' : Database) : Type 0 where
    applied : Applied c d db r db' → Outcome c d db r db'
    answered_again :
        (q : Request)
        → prior_request c.task_id d.idempotency_key db ≡ some q
        → q.request_json ≡ d.request_hash
        → r ≡ record q.response { reused = true }
        → db' ≡ db
        → Outcome c d db r db'

  Post-apply_prior :
      (c : LifecycleCall) (d : CallHeader) (o : Option Request) (db : Database)
      → prior_request c.task_id d.idempotency_key db ≡ o
      → Lawful host d.handler
      → IsHandlerOf c.action d.handler
      → Distinct db.executions
      → Post (apply_prior host c d o) db (Outcome c d db)
  unfolding apply_prior
  Post-apply_prior c d none db h lawful named k =
      Post-mono (Post-apply_new c d db lawful named k) λ r db' a. applied a
  Post-apply_prior c d (some q) db h lawful named k =
      Post-check _ _ _ λ same. Post-pure _ _ (answered_again q h (eq→≡ _ _ same) refl refl)

  -- A call of `apply` that returns a new reply has run the one handler that its action names on the
  -- database as it was: tasks, handoffs, external executions, managed runs and notices are as that
  -- handler left them, its result is the outcome of the reply, the revision of the task has advanced
  -- from the expected one by one, and the reply is stored. A call that returns another reply returns
  -- the stored reply of the same request and changes nothing, and a call that raises leaves the
  -- database as it was.
  pub apply_lem :
      (c : LifecycleCall) (db : Database)
      → Distinct db.executions
      → Atomic
          (apply host c)
          db
          (λ r db'. (d : CallHeader) × (header host c ≡ ok d) × Outcome c d db r db')
  unfolding apply
  apply_lem c db k = Atomic-lift _ _ λ d read. Atomic-transaction_last _ (
      Post-statement _ _ _ (
        Post-mono
          (Post-apply_prior c d _ db refl
            (λ fresh t p now db1 here dd.
              lookup-All (Lawful host) c.action actions ((header-IsRead c).at d read).0
                (handlers-Lawful host) fresh t p now db1 here dd)
            (lookup-Named IsHandlerOf c.action actions ((header-IsRead c).at d read).0
              actions-named)
            k)
          λ r db' o. (d, read, o)))

pub outcome-Changes :
    {c : LifecycleCall} {d : CallHeader} {db db' : Database} {r : Response} {host : Host}
    → Outcome host c d db r db'
    → Changes (core db) (core db')
outcome-Changes (applied a) = a.changes
outcome-Changes {db = db} (answered_again q h s e same) =
    subst (λ x. Changes (core db) (core x)) (sym same) none_yet
