-- ===== src/Engine/Lifecycle/Handlers.antt =====
-- What the handlers of qingtian_engine/lifecycle.py write: the handoffs and the outbox.
use qingtian_ai.Engine.Lifecycle.{
  Database, EngineTask, Handoff, HandoffStatus, Host, Notice, Version, accepted, engine_task_key,
  execution_key, handoff_key, intake_key, managed_run_key, notice_key, offered, rejected, resolved,
  version_key,
}
use qingtian_ai.Engine.Lifecycle.Change.{
  Change, Changes, Core, KeepsHandoff, and_then_one, core, handoff_added, handoff_task,
  handoff_written, may_become, none_yet,
}
use qingtian_ai.Engine.Lifecycle.Executions.{handoff_of, is_accepted}
use qingtian_ai.Engine.Lifecycle.Guards.{
  executable, insert_or_ignore, is_done, is_halted, is_known_notice, is_resolved, notify, owned,
}
use qingtian_ai.Engine.Lifecycle.Handoffs.{
  answered, closed_handoff, handoff_offer, handoff_resolve, insert_handoff, is_offered, new_handoff,
  receipt, update_handoff,
}
use qingtian_ai.Engine.Lifecycle.Outbox.{notice_of, outbox_ack, outbox_claim, update_notice}
use qingtian_ai.Exec.{Exec, modify, pure, ◌>>=◌}
use qingtian_ai.Exec.Reads.{Post-reads, Post-then_pure, free_key}
use qingtian_ai.Exec.Rules.{
  Post, Post-bind, Post-check, Post-check_last, Post-fetch_last, Post-lift, Post-modify,
  Post-modify_last, Post-mono, Post-pure, Post-when,
}
use qingtian_ai.Json.{Entries, Value}
use qingtian_ai.Prelude.{
  &&-left, Bool, Bool-cases, List, Option, String, any, arith, eq→≡, false, if◌then◌else◌, inl, inr,
  ltb, none, refl, some, subst, sym, true, ℕ, ◌+◌, ◌==◌, ◌≡◌, ◌⊎◌,
}
use qingtian_ai.Store.Table.{find, key-find}

-- what the notifications keep
abbrev pub Kept : Core → List Version → Database → Type 0
Kept c versions db = (core db ≡ c) × (db.versions ≡ versions)

-- the revision of a task advances at most once
abbrev pub Revised : List Version → List Version → Type 0
Revised old new =
    (k : String) (v : Version)
    → find k old ≡ some v
    → (w : Version) × (find k new ≡ some w)
      × ((w.revision ≡ v.revision) ⊎ (w.revision ≡ v.revision + 1))

pub unrevised : (old new : List Version) → new ≡ old → Revised old new
unrevised old new same k v h = (v, subst (λ vs. find k vs ≡ some v) (sym same) h, inl refl)

-- the writes of a handler
abbrev pub Wrote : Database → Database → Type 0
Wrote db db' = Changes (core db) (core db') × Revised db.versions db'.versions

-- a run of an action that returns has only made such writes
abbrev pub Writes : {A : Type 0} → Exec Database A → Database → Type 0
Writes m db = Post m db (λ _ db'. Wrote db db')

abbrev pub one : {c c' : Core} → Change c c' → Changes c c'
one change = and_then_one none_yet change

pub owned-found :
    {A : Type 0} (task_of : A → String) (task_id : String) (o : Option A) {r : A}
    → owned task_of task_id o ≡ some r
    → (o ≡ some r) × (task_of r ≡ task_id)
unfolding owned
owned-found task_of task_id none h = cc
owned-found task_of task_id (some x) {r} h = elim (Bool-cases (task_of x == task_id)) [
  | inl b ↦
      let q : ◌≡◌ {A = Option _} (some x) (some r) =
        subst (λ c. (if c then some x else none) ≡ some r) b h in
      (q, eq→≡ _ _ (subst (λ y. (task_of y == task_id) ≡ true) (cc q) b))
  | inr b ↦ absurd (cc (subst (λ c. (if c then some x else none) ≡ some r) b h))
]

module _ (host : Host) where
  -- the notifications change none of the core tables
  insert_or_ignore-core :
      (n : Notice) (db : Database) → Kept (core db) db.versions (insert_or_ignore host n db)
  unfolding insert_or_ignore
  insert_or_ignore-core n db = elim (Bool-cases (any (is_known_notice host n) db.outbox)) [
    | inl b ↦ rw b (refl, refl)
    | inr b ↦ rw b (refl, refl)
  ]

  pub Post-notify :
      (task_id : String) (subject : List String) (handoff_id : Option String)
      (recipient kind : String) (now : ℕ) {db : Database}
      → Post
          (notify host task_id subject handoff_id recipient kind now)
          db
          (λ _ db'. Kept (core db) db.versions db')
  unfolding notify
  Post-notify task_id subject handoff_id recipient kind now {db} =
      Post-modify _ _ (Post-check_last _ _ λ _. insert_or_ignore-core _ db)

  pub Post-executable :
      (t : EngineTask) {db : Database}
      → Post (executable host t) db (λ _ db'. (db' ≡ db) × (is_done t ≡ false))
  unfolding executable is_halted is_done
  Post-executable t = Post-check _ _ _ λ _. Post-check_last _ _ λ h. (refl, ground arith)

  pub Post-handoff_of :
      (t : EngineTask) (p : Entries) {db : Database}
      → Post
          (handoff_of host t p)
          db
          (λ h db'. (db' ≡ db) × ((find h.id db.handoffs ≡ some h) × (h.task_id ≡ t.id)))
  unfolding handoff_of
  Post-handoff_of t p {db} = Post-lift _ _ λ id _. Post-fetch_last _ _ λ h q.
      let (here, same) = owned-found handoff_task t.id (find id db.handoffs) q in
      (
        refl,
        (subst (λ k. find k db.handoffs ≡ some h) (sym (key-find db.handoffs id here)) here, same),
      )

  -- a write to a handoff that is there, and the notification of it
  Post-answer :
      (h : Handoff) (f : Handoff → Handoff) (task_id : String) (subject : List String)
      (handoff_id : Option String) (recipient kind : String) (now : ℕ) (reply : Value)
      {db : Database}
      → find h.id db.handoffs ≡ some h
      → ((x : Handoff) → KeepsHandoff x (f x))
      → may_become h.status (f h).status ≡ true
      → Writes
          (modify (update_handoff h.id f) >>= λ _.
            notify host task_id subject handoff_id recipient kind now >>= λ _. pure reply)
          db
  unfolding update_handoff
  Post-answer h f task_id subject handoff_id recipient kind now reply {db} here keeps moves =
      Post-modify _ _ (
        Post-then_pure _ _ (
          Post-mono (Post-notify task_id subject handoff_id recipient kind now) λ _ db' same. (
            subst (Changes (core db)) (sym same.0)
                (one (handoff_written h.id f h keeps here moves refl)),
            unrevised _ _ same.1,
          )))

  -- `_handoff_offer`
  pub handoff_offer-Writes :
      (fresh : String) (t : EngineTask) (p : Entries) (now : ℕ) (db : Database)
      → find t.id db.tasks ≡ some t
      → Writes (handoff_offer host fresh t p now) db
  unfolding handoff_offer insert_handoff
  handoff_offer-Writes fresh t p now db here = Post-lift _ _ λ _ _.
      Post-reads _ _ (Post-executable t) λ _ undone. Post-lift _ _ λ recipient _.
        Post-lift _ _ λ actor _. Post-check _ _ _ λ _. Post-lift _ _ λ deadline _.
          Post-check _ _ _ λ _. Post-lift _ _ λ stage _. Post-lift _ _ λ next_action _.
            Post-lift _ _ λ artifacts _. Post-bind _ _ (
              Post-check _ _ _ λ free. Post-modify_last _ (
                Post-then_pure _ _ (
                  Post-mono (Post-notify t.id _ _ recipient _ now) λ _ db' same. (
                    subst (Changes (core db)) (sym same.0) (
                        one (
                          handoff_added
                            (new_handoff host fresh t.id actor recipient deadline stage next_action
                              artifacts now)
                            t (free_key _ free) here undone refl)),
                    unrevised _ _ same.1,
                  ))))

  offered-moves : (a b : HandoffStatus) → is_offered a ≡ true → may_become a b ≡ true
  unfolding may_become is_offered
  offered-moves offered b h = refl
  offered-moves accepted b h = cc
  offered-moves rejected b h = cc
  offered-moves resolved b h = cc

  answered-keeps :
      (b : Bool) (now : ℕ) (reason : String) (missing : List String) (x : Handoff)
      → KeepsHandoff x (answered b now reason missing x)
  answered-keeps true now reason missing x = record {
    same_id = refl;
    same_task = refl;
    same_sender = refl;
    same_recipient = refl;
    same_manifest = refl;
  }
  answered-keeps false now reason missing x = record {
    same_id = refl;
    same_task = refl;
    same_sender = refl;
    same_recipient = refl;
    same_manifest = refl;
  }

  -- `_receipt`
  pub receipt-Writes :
      (is_accepting : Bool) (t : EngineTask) (p : Entries) (now : ℕ) (db : Database)
      → Writes (receipt host is_accepting t p now) db
  unfolding receipt
  receipt-Writes is_accepting t p now db = Post-lift _ _ λ _ _.
      Post-reads _ _ (Post-handoff_of t p) λ h there. Post-when _ _ _ _ (Post-executable t) λ _.
        Post-lift _ _ λ actor _. Post-check _ _ _ λ _. Post-check _ _ _ λ current.
          Post-lift _ _ λ digest _. Post-check _ _ _ λ _. Post-lift _ _ λ refusal _.
            Post-answer h (answered is_accepting now refusal.0 refusal.1) _ _ _ _ _ _ _ there.0
              (answered-keeps is_accepting now refusal.0 refusal.1)
              (offered-moves h.status _
                (&&-left (is_offered h.status) (ltb now h.deadline) current))

  closed-moves : (s : HandoffStatus) → may_become s resolved ≡ true
  unfolding may_become is_accepted is_resolved is_offered
  closed-moves offered = refl
  closed-moves accepted = refl
  closed-moves rejected = refl
  closed-moves resolved = refl

  -- `_handoff_resolve`
  pub handoff_resolve-Writes :
      (fresh : String) (t : EngineTask) (p : Entries) (now : ℕ) (db : Database)
      → Writes (handoff_resolve host fresh t p now) db
  unfolding handoff_resolve
  handoff_resolve-Writes fresh t p now db = Post-lift _ _ λ _ _.
      Post-reads _ _ (Post-handoff_of t p) λ h there. Post-lift _ _ λ actor _. Post-check _ _ _ λ _.
        Post-check _ _ _ λ _. Post-lift _ _ λ resolution _. Post-check _ _ _ λ _.
          Post-lift _ _ λ reference_text _.
            Post-answer h (closed_handoff now reference_text resolution) _ _ _ _ _ _ _ there.0
              (λ x. record {
                same_id = refl;
                same_task = refl;
                same_sender = refl;
                same_recipient = refl;
                same_manifest = refl;
              })
              (closed-moves h.status)

  -- `_outbox_claim` and `_outbox_ack`
  pub outbox_claim-Writes :
      (fresh : String) (t : EngineTask) (p : Entries) (now : ℕ) (db : Database)
      → Writes (outbox_claim host fresh t p now) db
  unfolding outbox_claim update_notice notice_of
  outbox_claim-Writes fresh t p now db = Post-lift _ _ λ _ _. Post-lift _ _ λ _ _.
      Post-lift _ _ λ _ _. Post-bind _ _ (
        Post-lift _ _ λ _ _. Post-fetch_last _ _ λ n _.
          Post-check _ _ _ λ _.
            Post-lift _ _ λ _ _. Post-modify _ _ (Post-pure _ _ (none_yet, unrevised _ _ refl)))

  pub outbox_ack-Writes :
      (fresh : String) (t : EngineTask) (p : Entries) (now : ℕ) (db : Database)
      → Writes (outbox_ack host fresh t p now) db
  unfolding outbox_ack update_notice notice_of
  outbox_ack-Writes fresh t p now db = Post-lift _ _ λ _ _. Post-lift _ _ λ _ _.
      Post-lift _ _ λ _ _. Post-lift _ _ λ _ _. Post-bind _ _ (
        Post-lift _ _ λ _ _. Post-fetch_last _ _ λ n _. Post-lift _ _ λ _ _.
          Post-check _ _ _ λ _. Post-modify _ _ (Post-pure _ _ (none_yet, unrevised _ _ refl)))
