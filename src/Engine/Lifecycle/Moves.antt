-- ===== src/Engine/Lifecycle/Moves.antt =====
-- The status of a handoff over any number of writes of qingtian_engine/lifecycle.py.
use qingtian_ai.Engine.Lifecycle.{
  Handoff, HandoffStatus, accepted, engine_task_key, execution_key, handoff_key, intake_key,
  managed_run_key, notice_key, offered, rejected, resolved, version_key,
}
use qingtian_ai.Engine.Lifecycle.Change.{
  Change, Changes, Core, KeepsHandoff, and_then_one, execution_added, execution_written,
  handoff_added, handoff_written, may_become, none_yet, run_added, run_written, task_added,
  task_written, untouched,
}
use qingtian_ai.Engine.Lifecycle.Executions.{is_accepted}
use qingtian_ai.Engine.Lifecycle.Guards.{is_resolved}
use qingtian_ai.Engine.Lifecycle.Handoffs.{is_offered}
use qingtian_ai.Engine.Lifecycle.Returned.{some_same}
use qingtian_ai.Prelude.{
  Bool-cases, List, String, arith, eq→≡, if◌then◌else◌, inl, inr, refl, some, subst, sym, true,
  ◌==◌, ◌∙◌, ◌≡◌,
}
use qingtian_ai.Store.Table.{find, find-insert_old, find-update_old, insert, update}

may_become_self : (s : HandoffStatus) → may_become s s ≡ true
unfolding may_become is_accepted is_resolved is_offered
may_become_self offered = refl
may_become_self accepted = refl
may_become_self rejected = refl
may_become_self resolved = refl

may_become_trans :
    (a b c : HandoffStatus) → may_become a b ≡ true → may_become b c ≡ true → may_become a c ≡ true
unfolding may_become is_accepted is_resolved is_offered
may_become_trans offered b c p q = refl
may_become_trans accepted offered c p q = cc
may_become_trans accepted accepted c p q = q
may_become_trans accepted rejected c p q = cc
may_become_trans accepted resolved c p q = ground arith
may_become_trans rejected offered c p q = cc
may_become_trans rejected accepted c p q = cc
may_become_trans rejected rejected c p q = q
may_become_trans rejected resolved offered p q = cc
may_become_trans rejected resolved accepted p q = cc
may_become_trans rejected resolved rejected p q = refl
may_become_trans rejected resolved resolved p q = refl
may_become_trans resolved offered c p q = cc
may_become_trans resolved accepted c p q = cc
may_become_trans resolved rejected c p q = cc
may_become_trans resolved resolved c p q = q

-- what is to be shown of the handoff that a key finds later
abbrev pub Onward : Handoff → String → List Handoff → Type 0
Onward h i hs =
    (h' : Handoff) × (find i hs ≡ some h')
    × KeepsHandoff h h'
    × (may_become h.status h'.status ≡ true)

abbrev same_handoff : (h : Handoff) → KeepsHandoff h h
same_handoff h = record {
  same_id = refl;
  same_task = refl;
  same_sender = refl;
  same_recipient = refl;
  same_manifest = refl;
}

abbrev keeps_both : (a b c : Handoff) → KeepsHandoff a b → KeepsHandoff b c → KeepsHandoff a c
keeps_both a b c p q = record {
  same_id = q.same_id ∙ p.same_id;
  same_task = q.same_task ∙ p.same_task;
  same_sender = q.same_sender ∙ p.same_sender;
  same_recipient = q.same_recipient ∙ p.same_recipient;
  same_manifest = q.same_manifest ∙ p.same_manifest;
}

still : (h : Handoff) (i : String) (hs : List Handoff) → find i hs ≡ some h → Onward h i hs
still h i hs here = (h, here, same_handoff h, may_become_self h.status)

Change-handoff :
    (c c' : Core)
    → Change c c'
    → (i : String) (h : Handoff) → find i c.handoffs ≡ some h
    → Onward h i c'.handoffs
Change-handoff c c' (untouched e) i h here =
    subst (λ x. Onward h i x.handoffs) (sym e) (still h i c.handoffs here)
Change-handoff c c' (task_added t free e) i h here =
    subst (λ x. Onward h i x.handoffs) (sym e) (still h i c.handoffs here)
Change-handoff c c' (task_written k g t s p q e) i h here =
    subst (λ x. Onward h i x.handoffs) (sym e) (still h i c.handoffs here)
Change-handoff c c' (execution_added d t p q r s e) i h here =
    subst (λ x. Onward h i x.handoffs) (sym e) (still h i c.handoffs here)
Change-handoff c c' (execution_written k f d p q r s e) i h here =
    subst (λ x. Onward h i x.handoffs) (sym e) (still h i c.handoffs here)
Change-handoff c c' (run_added r p q e) i h here =
    subst (λ x. Onward h i x.handoffs) (sym e) (still h i c.handoffs here)
Change-handoff c c' (run_written k f r p q s u e) i h here =
    subst (λ x. Onward h i x.handoffs) (sym e) (still h i c.handoffs here)
Change-handoff c c' (handoff_added g t p q r e) i h here =
    subst (λ x. Onward h i x.handoffs) (sym e)
      (still h i (insert g c.handoffs) (find-insert_old g c.handoffs i here))
Change-handoff c c' (handoff_written k f g keeps there moves e) i h here =
    let same_id : (x : Handoff) → (f x).id ≡ x.id = λ x. (keeps x).same_id in
    let found_now = find-update_old k f c.handoffs i same_id here in
    subst (λ x. Onward h i x.handoffs) (sym e)
      (elim (Bool-cases (k == i)) [
        | inl b ↦ (
          f h,
          subst (λ b. find i (update k f c.handoffs) ≡ some (if b then f h else h)) b found_now,
          keeps h,
          subst (λ (x : Handoff). may_become x.status (f x).status ≡ true)
              (some_same
                (sym there ∙ subst (λ j. find j c.handoffs ≡ some h) (sym (eq→≡ _ _ b)) here))
              moves,
        )
        | inr b ↦
            still h i (update k f c.handoffs) (
              subst (λ b. find i (update k f c.handoffs) ≡ some (if b then f h else h)) b found_now)
      ])

pub Changes-handoff :
    (c c' : Core)
    → Changes c c'
    → (i : String) (h : Handoff) → find i c.handoffs ≡ some h
    → Onward h i c'.handoffs
Changes-handoff c c' none_yet i h here = still h i c.handoffs here
Changes-handoff c c' (and_then_one {b = b} before change) i h here =
    let (g, p, q, m) = Changes-handoff c b before i h here in
    let (g', p', q', m') = Change-handoff b c' change i g p in
    (g', p', keeps_both h g g' q q', may_become_trans h.status g.status g'.status m m')
