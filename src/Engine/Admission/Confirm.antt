-- ===== src/Engine/Admission/Confirm.antt =====
-- What the second transaction of `dispatch` in qingtian_engine/admission.py records.
use qingtian_ai.Engine.Admission.{AdmissionRequest, Desk, Facts, Receipt}
use qingtian_ai.Engine.Admission.Bindings.{
  binding, binding_of, bound_to, fresh_run, knows_target, queued_or_ambiguous,
}
use qingtian_ai.Engine.Admission.Dispatch.{AdmissionCall, confirm}
use qingtian_ai.Engine.Admission.Projections.{active_runs, has_target}
use qingtian_ai.Engine.Admission.Reading.{guard}
use qingtian_ai.Engine.Admission.Reads.{FactsOf, Post-append, Post-facts, Post-project}
use qingtian_ai.Engine.Admission.Receipts.{max_sequence, run_id_of}
use qingtian_ai.Engine.Lifecycle.{Host, ManagedRun}
use qingtian_ai.Engine.Lifecycle.Handlers.{one}
use qingtian_ai.Exec.{Result, err, ok}
use qingtian_ai.Exec.Reads.{Post-reads}
use qingtian_ai.Exec.Rules.{Post-bind, Post-mono}
use qingtian_ai.Exec.Rules.Rollback.{Atomic, Atomic-transaction_last}
use qingtian_ai.Prelude.{
  &&-left, &&-right, Bool-cases, List, Option, String, [], any, ap, arith, eq→≡, false, filter, inl,
  inr, is_some, leb, length, none, not, not-true, refl, some, subst, sym, true, ◌&&◌, ◌++◌, ◌+◌,
  ◌==◌, ◌||◌, ◌∷◌, ◌≡◌, ◌⊎◌,
}

module _ (host : Host) (task_id scope : String) (seen : List String) (f : Facts) where
  -- the run that a confirmed request is bound to
  pub record Bound (result : Result (Option String)) (r : ManagedRun) : Type 0 where
    pub returned : result ≡ ok (some r.id)
    pub unstopped : guard host f ≡ none
    pub same_scope : (f.scope_hash == scope) ≡ true
    pub of_task : any (λ q. q.id == r.id && q.task_id == task_id) f.runs ≡ true
    pub unseen : any (λ id. id == r.id) seen ≡ false
    pub started : (r.status == "QUEUED" || r.status == "RUNNING" || r.status == "DONE") ≡ true
    pub its_target : has_target host f r.id ≡ true
    pub alone : leb (length (active_runs f.runs)) 1 ≡ true

  -- Either the request is queued and bound to such a run, or it stays uncertain with no run.
  abbrev pub Binds : Result (Option String) → String → Option ManagedRun → Type 0
  Binds result state run =
      ((r : ManagedRun) × (state ≡ "queued") × (run ≡ some r) × Bound result r)
      ⊎ ((state ≡ "uncertain") × (run ≡ none))

  filter_one :
      (id : String) (runs : List ManagedRun) {r : ManagedRun} {rest : List ManagedRun}
      → filter (λ q. q.id == id && q.task_id == task_id) runs ≡ r ∷ rest
      → (r.id ≡ id) × (any (λ q. q.id == id && q.task_id == task_id) runs ≡ true)
  unfolding filter any
  filter_one id [] h = absurd (cc)
  filter_one id (q ∷ runs) {r} h = elim (Bool-cases (q.id == id && q.task_id == task_id)) [
    | inl e ↦
        let p : q ≡ r = cc (rw e at h) in
        (subst (λ x. x.id ≡ id) p (eq→≡ _ _ (&&-left _ _ e)), rw e refl)
    | inr e ↦ let (p, q) = filter_one id runs (rw e at h) in (p, rw e q)
  ]

  fresh_run-one :
      (runs : List ManagedRun) {r : ManagedRun}
      → fresh_run seen runs ≡ some r
      → (runs ≡ r ∷ [])
        × (any (λ id. id == r.id) seen ≡ false)
        × ((r.status == "QUEUED" || r.status == "RUNNING" || r.status == "DONE") ≡ true)
  unfolding fresh_run
  fresh_run-one [] h = absurd (cc)
  fresh_run-one (q ∷ []) {r} h =
      elim (Bool-cases (
        not (any (λ id. id == q.id) seen)
        && (q.status == "QUEUED" || q.status == "RUNNING" || q.status == "DONE"))) [
          | inl e ↦
              let p : q ≡ r = cc (rw e at h) in
              subst
                (λ x.
                  (q ∷ [] ≡ x ∷ [])
                  × (any (λ id. id == x.id) seen ≡ false)
                  × ((x.status == "QUEUED" || x.status == "RUNNING" || x.status == "DONE") ≡ true))
                p (refl, not-true _ (&&-left _ _ e), &&-right _ _ e)
          | inr e ↦ absurd (cc (rw e at h))
        ]
  fresh_run-one (q ∷ p ∷ runs) h = absurd (cc)

  queued-Binds :
      (id : String) (x : Option ManagedRun)
      → fresh_run seen (filter (λ r. r.id == id && r.task_id == task_id) f.runs) ≡ x
      → guard host f ≡ none
      → (f.scope_hash == scope) ≡ true
      → has_target host f id ≡ true
      → leb (length (active_runs f.runs)) 1 ≡ true
      → let (state, _, run) = queued_or_ambiguous x in Binds (ok (some id)) state run
  unfolding queued_or_ambiguous
  queued-Binds id none e unstopped same target alone = inr (refl, refl)
  queued-Binds id (some r) e unstopped same target alone =
      let (one, unseen, started) = fresh_run-one _ e in
      let (is, of_task) = filter_one id f.runs one in
      inl (
        r,
        refl,
        refl,
        record {
          returned = ap (λ x. ok (some x)) (sym is);
          unstopped = unstopped;
          same_scope = same;
          of_task =
              subst (λ x. any (λ q. q.id == x && q.task_id == task_id) f.runs ≡ true) (sym is)
                of_task;
          unseen = unseen;
          started = started;
          its_target = subst (λ x. has_target host f x ≡ true) (sym is) target;
          alone = alone;
        },
      )

  bound_to-Binds :
      (id : String)
      → guard host f ≡ none
      → (f.scope_hash == scope) ≡ true
      → let (state, _, run) = bound_to host f task_id seen id in Binds (ok (some id)) state run
  unfolding bound_to
  bound_to-Binds id unstopped same =
      elim (Bool-cases (knows_target f id && not (has_target host f id))) [
        | inl a ↦ rw a (inr (refl, refl))
        | inr a ↦ elim (Bool-cases (knows_target f id && leb (length (active_runs f.runs)) 1)) [
          | inr b ↦ rw (a, b) (inr (refl, refl))
          | inl b ↦
              rw (a, b) (queued-Binds id _ refl unstopped same (ground arith) (&&-right _ _ b))
        ]
      ]

  binding_of-Binds :
      (result : Result (Option String))
      → guard host f ≡ none
      → (f.scope_hash == scope) ≡ true
      → let (state, _, run) = binding_of host f task_id seen result in Binds result state run
  unfolding binding_of
  binding_of-Binds (ok (some id)) unstopped same = bound_to-Binds id unstopped same
  binding_of-Binds (ok none) unstopped same = inr (refl, refl)
  binding_of-Binds (err e) unstopped same = inr (refl, refl)

  binding-Binds :
      (result : Result (Option String))
      → let (state, _, run) = binding host f task_id scope seen result in Binds result state run
  unfolding binding is_some
  binding-Binds result = elim (Bool-cases (is_some (guard host f) || not (f.scope_hash == scope))) [
    | inl stopped ↦ rw stopped (inr (refl, refl))
    | inr clear ↦
        rw clear (binding_of-Binds result (no_stop (guard host f) (ground arith)) (ground arith))
  ]
    where
      no_stop : (x : Option (String × String)) → is_some x ≡ false → x ≡ none
      no_stop none h = refl
      no_stop (some stop) h = absurd (cc)

module _ (host : Host) (c : AdmissionCall) where
  -- what a confirmation writes
  pub record Confirmed (r : AdmissionRequest) (scope : String) (seen : List String)
      (result : Result (Option String)) (db db' : Desk) : Type 0 where
    pub facts_read : Facts
    pub read : FactsOf host c.confirmed_at c.task_id db facts_read
    pub receipt : Receipt
    pub run : Option ManagedRun
    pub after : db' ≡ record db { receipts = db.receipts ++ receipt ∷ [] }
    pub request : receipt.request_id ≡ r.id
    pub task : receipt.task_id ≡ r.task_id
    pub next : receipt.sequence ≡ max_sequence db.receipts + 1
    pub names : receipt.run_id ≡ run_id_of run
    pub binds : Binds host c.task_id scope seen facts_read result receipt.state run

  -- A confirmation raises and writes nothing, or it adds one receipt to its request. The receipt is
  -- queued and names the run whose identifier the dispatcher has returned, which is a run of the
  -- task that was not there before, started, with the recorded target, of a task with at most one active
  -- run, that nothing stops and whose scope is unchanged; or it is uncertain and names no run.
  pub confirm_lem :
      (r : AdmissionRequest) (scope : String) (seen : List String) (result : Result (Option String))
      (db : Desk)
      → Atomic
          (confirm host c r scope seen result)
          db
          (λ p db'. Confirmed r scope seen result db db')
  unfolding confirm
  confirm_lem r scope seen result db = Atomic-transaction_last _ (
      Post-reads _ _ (Post-facts host c.confirmed_at c.task_id) λ f read. Post-bind _ _ (
        Post-mono (Post-append _) λ a db' added. Post-mono (Post-project host f _ _) λ p db'' shown.
          subst (Confirmed r scope seen result db) (sym shown.0) (record {
            facts_read = f;
            read = read;
            receipt = a;
            run = (binding host f c.task_id scope seen result).2;
            after = added.after;
            request = added.request;
            task = added.task;
            next = added.next;
            names = added.run;
            binds =
                subst
                  (λ s.
                    Binds host c.task_id scope seen f result s
                      (binding host f c.task_id scope seen result).2)
                  (sym added.state) (binding-Binds host c.task_id scope seen f result);
          })))
