-- ===== src/Store/Methods/Sessions.antt =====
-- `create_session` and `transition_session` do one abstract step, and change nothing when they
-- raise.
use qingtian_ai.Exec.Rules.{
  Post, Post-bind, Post-check, Post-check_last, Post-fetch, Post-lift, Post-modify_last, Post-mono,
  Post-pure, Post-when, found-ok,
}
use qingtian_ai.Exec.Rules.Ends.{Ends-fetch}
use qingtian_ai.Exec.Rules.Rollback.{Atomic, Atomic-check, Atomic-lift, Atomic-transaction}
use qingtian_ai.Json.{Codec}
use qingtian_ai.Prelude.{
  &&-left, Bool, List, Option, String, [], any, arith, false, is_some, nat_eq→≡, none, not,
  not-true, or_else, refl, some, subst, sym, true, ℕ, ◌==◌, ◌||◌, ◌∷◌, ◌≡◌,
}
use qingtian_ai.States.{SessionState, is_running, parse_session_state}
use qingtian_ai.Store.Recovery.{require_recovery_checkpoint}
use qingtian_ai.Store.Rows.{
  Db, Session, Task, checkpoint_key, evidence_key, indexed_key, knowledge_key, run_key, session_key,
  task_key,
}
use qingtian_ai.Store.Sessions.{
  activate, create_session, get_session, has_session, new_session, recover, session_in_flight,
  session_with_task, source_valid, transition_session,
}
use qingtian_ai.Store.Statements.{Post-insert_session, validated_id}
use qingtian_ai.Store.Step.{SessionCreated, SessionMoved, moved_session}
use qingtian_ai.Store.Table.{find, find-insert_self, find-update_self, insert, key-find, update}
use qingtian_ai.Store.Tasks.{has_open_session}

any-weaken :
    (p q : Session → Bool) (l : List Session)
    → ((s : Session) → q s ≡ true → p s ≡ true)
    → any p l ≡ false
    → any q l ≡ false
unfolding any
any-weaken p q [] h e = refl
any-weaken p q (x ∷ l) h e = ground (arith, any-weaken p q l h, h x)

has_open_session-le :
    (task_id : String) (db : Db)
    → has_session task_id db ≡ false
    → has_open_session task_id db ≡ false
unfolding has_session has_open_session
has_open_session-le task_id db h =
    any-weaken (λ s. s.task_id == task_id) _ db.sessions (λ s e. &&-left _ _ e) h

-- `_require_recovery_checkpoint` only reads
Post-require_recovery_checkpoint :
    (c : Codec) (id task_id : String) (n : ℕ) (db : Db)
    → Post (require_recovery_checkpoint c id task_id n) db (λ _ db'. db' ≡ db)
unfolding require_recovery_checkpoint validated_id
Post-require_recovery_checkpoint c id task_id n db = Post-check _ _ _ λ _. Post-fetch _ _ _ λ row _.
    Post-lift _ _
      λ v _. Post-check _ _ _ λ _. Post-check _ _ _ λ _. Post-check _ _ _ λ _. Post-pure _ _ refl

Post-recover :
    (c : Codec) (source : Option String) (task_id : String) (n : ℕ) (db : Db)
    → (not (has_session task_id db) || is_some source) ≡ true
    → Post
        (recover c source task_id n)
        db
        (λ _ db'. (db' ≡ db) × (has_open_session task_id db ≡ false))
unfolding recover is_some
Post-recover c none task_id n db h =
    Post-pure _ _ (refl, has_open_session-le task_id db (ground arith))
Post-recover c (some id) task_id n db h = Post-bind _ _ (
    Post-mono (Post-require_recovery_checkpoint c id task_id n db)
      λ v db' e. rw e (Post-check _ _ _ λ p. Post-check_last _ _ λ _. (refl, not-true _ p)))

-- `create_session` returns the row that it has added, as the source's guards require it; a call
-- that raises leaves the database as it was.
pub create_session_lem :
    (c : Codec) (task_id host : String) (source session_id : Option String) (now : ℕ)
    (fresh : String) (db : Db)
    → Atomic (create_session c task_id host source session_id now fresh) db (λ r db'.
      SessionCreated db r
      × (db' ≡ record db { sessions = insert r db.sessions })
      × (r.session_id ≡ or_else session_id fresh)
      × (r.task_id ≡ task_id))
unfolding create_session validated_id get_session
create_session_lem c task_id host source session_id now fresh db = Atomic-check _ _ _ λ _.
    Atomic-check _ _ _ λ _. Atomic-transaction _ _ (
      Post-fetch _ _ _ λ task has_task. Post-check _ _ _ λ running. Post-check _ _ _ λ sourced.
        Post-bind _ _ (
          Post-mono (Post-recover c source task_id task.revision db sourced) λ _ db' facts.
            let (same, alone) = facts in
            let r = new_session (or_else session_id fresh) task_id host task.revision source now in
            rw same (
              Post-insert_session _ λ free _.
                Ends-fetch _ _ r (find-insert_self r db.sessions free) (
                  record {
                    fresh = free;
                    task = task;
                    has_task = has_task;
                    task_running = running;
                    is_created = refl;
                    current = refl;
                    alone = alone;
                    sourced = λ h. ground arith;
                  },
                  refl,
                  refl,
                  refl,
                ))))

session_with_task-found :
    (id : String) (db : Db) {s : Session} {t : Task}
    → session_with_task id db ≡ some (s, t)
    → (find id db.sessions ≡ some s) × (find s.task_id db.tasks ≡ some t)
unfolding session_with_task
session_with_task-found id db h = ground arith

Post-source_valid :
    (c : Codec) (source : Option String) (task_id : String) (n : ℕ) (db : Db)
    → Post (source_valid c source task_id n) db (λ _ db'. db' ≡ db)
unfolding source_valid
Post-source_valid c none task_id n db = Post-pure _ _ refl
Post-source_valid c (some id) task_id n db = Post-bind _ _ (
    Post-mono (Post-require_recovery_checkpoint c id task_id n db)
      λ _ db' e. rw e (Post-pure _ _ refl))

Post-activate :
    (c : Codec) (id : String) (s : Session) (t : Task) (db : Db)
    → Post
        (activate c id s t)
        db
        (λ _ db'. (db' ≡ db) × ((is_running t.state ≡ true) × (s.context_revision ≡ t.revision)))
unfolding activate
Post-activate c id s t db = Post-check _ _ _ λ running. Post-check _ _ _ λ current.
    Post-check _ _ _ λ _. Post-bind _ _ (
      Post-mono (Post-source_valid c s.source_checkpoint_id s.task_id t.revision db)
        λ _ db' e. rw e (Post-check_last _ _ λ _. (refl, (running, nat_eq→≡ _ _ current))))

-- `transition_session` moves the one row that it names along a legal transition and returns it; a
-- call that raises leaves the database as it was.
pub transition_session_lem :
    (c : Codec) (id target : String) (now : ℕ) (db : Db)
    → Atomic (transition_session c id target now) db (λ r db'.
      (s : Session) × (state : SessionState) × SessionMoved db s state
      × (parse_session_state target ≡ some state)
      × (s.session_id ≡ id)
      × (r ≡ moved_session state now s)
      × (db' ≡ record db { sessions = update s.session_id (moved_session state now) db.sessions }))
unfolding transition_session get_session
transition_session_lem c id target now db = Atomic-lift _ _ λ state parsed. Atomic-transaction _ _ (
    Post-fetch _ _ _ λ p joined.
      let (s, t) = p in
      let (here, has_task) = session_with_task-found id db joined in
      let e = key-find db.sessions id here in
      Post-check _ _ _ λ legal. Post-when _ _ _ _ (Post-activate c id s t db) λ ready.
        Post-when _ _ _ (session_in_flight id db ≡ false)
          (Post-check_last _ _ λ idle. (refl, not-true _ idle))
          λ idle. Post-modify_last _ (
            Ends-fetch _ _ (moved_session state now s)
              (find-update_self id (moved_session state now) db.sessions (λ x. refl) here)
              (
                s,
                state,
                record {
                  present = subst (λ k. find k db.sessions ≡ some s) (sym e) here;
                  task = t;
                  has_task = has_task;
                  legal = legal;
                  task_running = λ a. (ready a).0;
                  current = λ a. (ready a).1;
                  idle = λ a. subst (λ k. session_in_flight k db ≡ false) (sym e) (idle a);
                },
                found-ok _ _ parsed,
                e,
                refl,
                subst
                    (λ k.
                      record db { sessions = update id (moved_session state now) db.sessions }
                      ≡ record db { sessions = update k (moved_session state now) db.sessions })
                    (sym e) refl,
              )))
