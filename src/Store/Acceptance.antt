-- ===== src/Store/Acceptance.antt =====
-- Calls that the store (qingtian_core/store.py) accepts, and the rows that they leave.
use qingtian_ai.Exec.{check, fetch, lift, modify, ok, pure, statement, transaction, when, ◌>>=◌}
use qingtian_ai.Json.{
  Codec, IsFaithful, Value, canonical_json, list, require_strict_json, text_items,
}
use qingtian_ai.Json.Strict.{strict-text_items}
use qingtian_ai.Prelude.{
  List, Option, String, any, arith, eq_self, false, first-none, is_blank, is_empty, is_id, is_some,
  nat_eq, none, not, opt_eq, or_else, refl, some, subst, sym, true, truthy, ℕ, ◌&&◌, ◌++◌, ◌==◌,
  ◌||◌, ◌∙◌, ◌≡◌,
}
use qingtian_ai.Providers.{provider_key}
use qingtian_ai.States.{
  RunState, SessionState, TaskState, created, in_flight, is_active, is_running, is_unknown,
  parse_run_state, planned, run_transition, unknown,
}
use qingtian_ai.Store.Rows.{
  Db, Run, Session, Task, checkpoint_key, evidence_key, indexed_key, knowledge_key, run_key,
  session_key, task_key,
}
use qingtian_ai.Store.Runs.{
  coalesce, create_run, get_run, has_foreign_run, has_unknown_run, keyed_run, new_run,
  request_digest, returned_run, reuse_or_insert, run_with_context, starts, transition_run,
}
use qingtian_ai.Store.Sessions.{create_session, get_session, has_session, new_session, recover}
use qingtian_ai.Store.Statements.{
  absent, clashes-any, insert_run, insert_session, insert_task, validated_id,
}
use qingtian_ai.Store.Table.{find, find-insert_self, find-update_self, insert, update}
use qingtian_ai.Store.Tasks.{create_task, decode_task, get_task, new_task}

running_state : (state : TaskState) → state ≡ TaskState.running → is_running state ≡ true
unfolding is_running
running_state state h = rw h refl

-- The first session of a running task is created, with the revision of the task as its context, if
-- the host has a name and the identifier is well formed and free.
pub create_session_accepts :
    (c : Codec) (task_id host_alias : String) (session_id : Option String) (now : ℕ)
    (fresh : String) (db : Db) (t : Task)
    → not (is_blank host_alias) ≡ true
    → is_id "session" (or_else session_id fresh) ≡ true
    → find task_id db.tasks ≡ some t
    → t.state ≡ TaskState.running
    → any (λ s. s.task_id == task_id) db.sessions ≡ false
    → find (or_else session_id fresh) db.sessions ≡ none
    → create_session c task_id host_alias none session_id now fresh db ≡ (
      ok (record {
        session_id = or_else session_id fresh;
        task_id = task_id;
        host_alias = host_alias;
        context_revision = t.revision;
        state = created;
        source_checkpoint_id = none;
        created_at = now;
        updated_at = now;
      }),
      record db {
        sessions =
            insert
              (record {
                session_id = or_else session_id fresh;
                task_id = task_id;
                host_alias = host_alias;
                context_revision = t.revision;
                state = created;
                source_checkpoint_id = none;
                created_at = now;
                updated_at = now;
              })
              db.sessions;
      },
    )
unfolding create_session has_session ◌>>=◌ check transaction fetch pure modify recover
    insert_session validated_id get_session absent is_some
create_session_accepts c task_id host_alias session_id now fresh db t named valid there going
      no_session free =
    ground (
      arith,
      running_state t.state going,
      find-insert_self
          (new_session (or_else session_id fresh) task_id host_alias t.revision none now)
          db.sessions free,
    )

keyed_run-none :
    (task_id executor : String) (key : Option String) (db : Db)
    → any
        (λ x.
          x.task_id == task_id
          && x.executor == executor
          && (is_some key && opt_eq x.idempotency_key key))
        db.runs
      ≡ false
    → keyed_run task_id executor key db ≡ none
unfolding keyed_run is_some
keyed_run-none task_id executor none db h = refl
keyed_run-none task_id executor (some k) db h = ground (arith, first-none _ db.runs h)

active_state : (state : SessionState) → state ≡ SessionState.active → is_active state ≡ true
unfolding is_active
active_state state h = rw h refl

nat_eq_of : (a b : ℕ) → a ≡ b → nat_eq a b ≡ true
nat_eq_of a b h = ground (arith, h)

-- A run with a key that is free, or with none, is created as PLANNED in an active session with the
-- current context of a running task that has no unknown run and no run in flight elsewhere.
pub create_run_accepts :
    (c : Codec) (task_id session_id executor : String) (key : Option String)
    (request : Option Value) (run_id : Option String) (now : ℕ) (fresh : String) (db : Db)
    {digest : Option String} {t : Task} {s : Session}
    → not (is_blank executor) ≡ true
    → (absent key || not (is_blank (or_else key ""))) ≡ true
    → request_digest c request ≡ ok digest
    → is_id "run" (or_else run_id fresh) ≡ true
    → find task_id db.tasks ≡ some t
    → find session_id db.sessions ≡ some s
    → s.task_id ≡ task_id
    → any
        (λ x.
          x.task_id == task_id
          && x.executor == executor
          && (is_some key && opt_eq x.idempotency_key key))
        db.runs
      ≡ false
    → t.state ≡ TaskState.running
    → s.state ≡ SessionState.active
    → s.context_revision ≡ t.revision
    → any (λ r. r.task_id == task_id && is_unknown r.state) db.runs ≡ false
    → any
        (λ r. r.task_id == task_id && not (r.session_id == session_id) && in_flight r.state)
        db.runs
      ≡ false
    → find (or_else run_id fresh) db.runs ≡ none
    → create_run c task_id session_id executor key request run_id now fresh db ≡ (
      ok (record {
        run_id = or_else run_id fresh;
        task_id = task_id;
        session_id = session_id;
        input_revision = t.revision;
        executor = executor;
        state = planned;
        external_operation_id = none;
        idempotency_key = key;
        request_hash = digest;
        created_at = now;
        updated_at = now;
      }),
      record db {
        runs =
            insert
              (record {
                run_id = or_else run_id fresh;
                task_id = task_id;
                session_id = session_id;
                input_revision = t.revision;
                executor = executor;
                state = planned;
                external_operation_id = none;
                idempotency_key = key;
                request_hash = digest;
                created_at = now;
                updated_at = now;
              })
              db.runs;
      },
    )
unfolding create_run has_unknown_run has_foreign_run ◌>>=◌ lift transaction fetch check modify
    statement reuse_or_insert returned_run pure validated_id insert_run get_run absent is_some
create_run_accepts c task_id session_id executor key request run_id now fresh db {digest} {t} {s}
      named given hashed valid ht hs same free going acting current settled alone fresh_id =
    let new =
      new_run (or_else run_id fresh) task_id session_id t.revision executor key digest now in
    ground (
      arith,
      find-insert_self new db.runs fresh_id,
      keyed_run-none task_id executor key db free,
      clashes-any new db.runs ∙ free,
      running_state t.state going,
      active_state s.state acting,
      subst (λ k. (k == task_id) ≡ true) (sym same) (eq_self task_id),
      nat_eq_of s.context_revision t.revision current,
      settled,
      alone,
    )

resolved_known : (state : RunState) → run_transition unknown state ≡ true → is_unknown state ≡ false
unfolding run_transition is_unknown
resolved_known unknown h = cc
resolved_known _ h = refl

restarted : (state : RunState) → starts unknown state ≡ false
unfolding starts
restarted state = refl

no_clash : (o : Option String) → not (truthy o && truthy none && not (opt_eq o none)) ≡ true
no_clash o = ground arith

-- A run that is unknown can be resolved at any time, whatever has become of its task and its
-- session: as succeeded or as failed, with the external operation that it has.
pub unknown_resolves :
    (run_id target : String) (now : ℕ) (db : Db) {r : Run} {t : Task} {s : Session}
    {state : RunState}
    → parse_run_state target ≡ some state
    → run_with_context run_id db ≡ some (r, t, s)
    → find run_id db.runs ≡ some r
    → r.state ≡ unknown
    → run_transition unknown state ≡ true
    → transition_run run_id target none now db ≡ (
      ok (record r { state = state; updated_at = now }),
      record db {
        runs =
            update run_id
              (λ x. record x {
                state = state;
                external_operation_id = coalesce none x.external_operation_id;
                updated_at = now;
              })
              db.runs;
      },
    )
unfolding transition_run ◌>>=◌ lift transaction fetch check modify when absent get_run coalesce
unknown_resolves run_id target now db {r} {t} {s} {state} parsed joins there is_so legal =
    rw
      (
        parsed,
        joins,
        is_so,
        legal,
        restarted state,
        no_clash r.external_operation_id,
        resolved_known state legal,
      )
      (rw
        (find-update_self run_id
          (λ x. record x {
            state = state;
            external_operation_id = coalesce none x.external_operation_id;
            updated_at = now;
          })
          db.runs (λ x. refl) there)
        refl)

strict_list : (ss : List String) → require_strict_json (list (text_items ss)) ≡ ok tt
unfolding require_strict_json
strict_list ss = strict-text_items ss

encoded_list :
    (c : Codec) (ss : List String)
    → canonical_json c (list (text_items ss)) ≡ ok (c.dumps (list (text_items ss)))
unfolding canonical_json require_strict_json
encoded_list c ss = rw (strict-text_items ss) refl

-- With a faithful codec, a task is created as a draft at revision 1 if its texts are given, its
-- scope and acceptance are lists of texts that are given, and its identifier is well formed and
-- free.
pub create_task_accepts :
    (c : Codec) (f : IsFaithful c) (project_id title objective : String)
    (scope acceptance : List String) (task_id : Option String) (now : ℕ) (fresh : String) (db : Db)
    → (is_blank project_id || is_blank title || is_blank objective) ≡ false
    → (is_empty scope || is_empty acceptance || any is_blank (scope ++ acceptance)) ≡ false
    → is_id "task" (or_else task_id fresh) ≡ true
    → find (or_else task_id fresh) db.tasks ≡ none
    → create_task c project_id title objective scope acceptance task_id now fresh db ≡ (
      ok (record {
        row =
            new_task
              (or_else task_id fresh)
              project_id
              title
              objective
              (c.dumps (list (text_items scope)))
              (c.dumps (list (text_items acceptance)))
              now;
        scope = f.reread (list (text_items scope));
        acceptance = f.reread (list (text_items acceptance));
      }),
      record db {
        tasks =
            insert
              (new_task
                (or_else task_id fresh)
                project_id
                title
                objective
                (c.dumps (list (text_items scope)))
                (c.dumps (list (text_items acceptance)))
                now)
              db.tasks;
      },
    )
unfolding create_task ◌>>=◌ lift transaction fetch check modify insert_task get_task decode_task
    validated_id absent
create_task_accepts c f project_id title objective scope acceptance task_id now fresh db given
      listed valid free =
    rw (given, listed, valid, encoded_list c scope, encoded_list c acceptance, free)
      (rw
        (
          find-insert_self
              (new_task (or_else task_id fresh) project_id title objective
                (c.dumps (list (text_items scope))) (c.dumps (list (text_items acceptance))) now)
              db.tasks free,
          f.reloads _ (strict_list scope),
          f.reloads _ (strict_list acceptance),
        )
        refl)
