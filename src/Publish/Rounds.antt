-- ===== src/Publish/Rounds.antt =====
-- A turn of RunPublisher of internal/roles.go.
use aurforge.Common.{
  ℕ, ◌≤◌, Text, List, [], ◌∷◌, Option, ◌≡◌, refl, subst, false≢true, arith, All, All-map,
  Bool-cases, inl, inr, ltb, select,
}
use mathlib.Core.List.Permᴰ
use mathlib.Core.List.{Permᴰ}
use aurforge.Store.{Tables, Job, is_built}
use aurforge.Session.{Error, ok, Env, Session}
use aurforge.Session.Ensures.{
  Ensures, Ensures-bind, Ensures-pure, Ensures-client_query, Ensures-weaken-failure, ok_injective,
}
use aurforge.Config.{Config}
use aurforge.Publish.{
  Entry, insert_by_id, by_id, built_jobs, publish_job, publish_or_fail, publish_each,
  publisher_round,
}
use aurforge.Publish.Outcome.{IsSettled, publish_or_fail-IsSettled}

-- No job has a greater id than one behind it.
abbrev pub IsAscending : List Job → Type 0
IsAscending [] = Unit
IsAscending (j ∷ js) = All (λ (k : Job). j.id ≤ k.id) js × IsAscending js

-- The jobs with the status built, each as often as the table has it, by their ids.
pub record IsQueue (t : Tables) (jobs : List Job) : Type 0 where
  pub all_built : Permᴰ jobs (select (λ j. is_built j.status) t.jobs)
  pub ascending : IsAscending jobs

insert_by_id-Perm : (j : Job) (ks : List Job) → Permᴰ (insert_by_id j ks) (j ∷ ks)
unfolding insert_by_id
insert_by_id-Perm j [] = Permᴰ.refl (j ∷ [])
insert_by_id-Perm j (k ∷ ks) = elim (Bool-cases (ltb k.id j.id)) [
  | inl e ↦ rw e (Permᴰ.trans (Permᴰ.cons refl (insert_by_id-Perm j ks)) (Permᴰ.swap refl refl))
  | inr e ↦ rw e (Permᴰ.refl (j ∷ k ∷ ks))
]

by_id-Perm : (js : List Job) → Permᴰ (by_id js) js
unfolding by_id
by_id-Perm [] = Permᴰ.nil
by_id-Perm (j ∷ js) = Permᴰ.trans (insert_by_id-Perm j (by_id js)) (Permᴰ.cons refl (by_id-Perm js))

insert_by_id-All :
    (least : ℕ) (j : Job) (ks : List Job)
    → least ≤ j.id
    → All (λ (k : Job). least ≤ k.id) ks
    → All (λ (k : Job). least ≤ k.id) (insert_by_id j ks)
unfolding insert_by_id
insert_by_id-All least j [] h a = (h, tt)
insert_by_id-All least j (k ∷ ks) h (b, a) = elim (Bool-cases (ltb k.id j.id)) [
  | inl e ↦ rw e (b, insert_by_id-All least j ks h a)
  | inr e ↦ rw e (h, (b, a))
]

insert_by_id-IsAscending :
    (j : Job) (ks : List Job) → IsAscending ks → IsAscending (insert_by_id j ks)
unfolding insert_by_id
insert_by_id-IsAscending j [] h = (tt, tt)
insert_by_id-IsAscending j (k ∷ ks) (a, h) = elim (Bool-cases (ltb k.id j.id)) [
  | inl e ↦ rw e (insert_by_id-All k.id j ks (ground arith) a, insert_by_id-IsAscending j ks h)
  | inr e ↦
      let least : j.id ≤ k.id = ground arith in
      let all = All-map _ (λ (i : Job). j.id ≤ i.id) ks (λ i b. omega arith) a in
      rw e ((least, all), (a, h))
]

by_id-IsAscending : (js : List Job) → IsAscending (by_id js)
unfolding by_id
by_id-IsAscending [] = tt
by_id-IsAscending (j ∷ js) = insert_by_id-IsAscending j (by_id js) (by_id-IsAscending js)

built_jobs-IsQueue : (t : Tables) → IsQueue t (built_jobs t)
unfolding built_jobs
built_jobs-IsQueue t = record {
  all_built = by_id-Perm (select (λ j. is_built j.status) t.jobs);
  ascending = by_id-IsAscending (select (λ j. is_built j.status) t.jobs);
}

module _ (env : Env) (cfg : Config) (staged : ℕ → Option (List Entry))
    (error_text : Error → Text) where
  -- The jobs are settled one after the other, each from the session that the one before it left, by
  -- what publishJob does with it there.
  pub data AllSettled : List Job → Session → Session → Type 0 where
    all_done : {s : Session} → AllSettled [] s s
    and_settled :
        {job : Job} {jobs : List Job} {s between t : Session}
        → IsSettled env staged error_text job.id
            (publish_job env cfg staged error_text job.id s).0
            (publish_job env cfg staged error_text job.id s).1
            s.committed
            between.committed
        → AllSettled jobs between t
        → AllSettled (job ∷ jobs) s t

  publish_each_lem :
      {F : Session → Type 0} (jobs : List Job) (s : Session)
      → Ensures (publish_each env cfg staged error_text jobs) s (λ _ t. AllSettled jobs s t) F
  unfolding publish_each
  publish_each_lem [] s = Ensures-pure tt s all_done
  publish_each_lem {F} (j ∷ js) s =
      Ensures-bind (publish_or_fail env cfg staged error_text j.id) _ s
        (λ _ t.
          IsSettled env staged error_text j.id (publish_job env cfg staged error_text j.id s).0
            (publish_job env cfg staged error_text j.id s).1 s.committed t.committed)
        (λ _ t. AllSettled (j ∷ js) s t)
        (Ensures-weaken-failure _ s (publish_or_fail-IsSettled env cfg staged error_text j.id s)
          (λ _ h. h) (λ never. absurd (false≢true never)))
        λ _ t h.
          Ensures-weaken-failure _ t (publish_each_lem {F = F} js t) (λ _ rest. and_settled h rest)
            (λ k. k)

-- A turn of the publisher finds all jobs that are built, by their ids, and settles them one after
-- the other, whatever fails on the way; only where the query for them fails it returns an error,
-- and then no table has changed.
pub publisher_round-AllSettled :
    (env : Env) (cfg : Config) (staged : ℕ → Option (List Entry)) (error_text : Error → Text)
    (s : Session)
    → Ensures
        (publisher_round env cfg staged error_text)
        s
        (λ _ t.
          (jobs : List Job) × (first : Session) × IsQueue s.committed jobs
          × (first.committed ≡ s.committed)
          × AllSettled env cfg staged error_text jobs first t)
        (λ t. t.committed ≡ s.committed)
unfolding publisher_round
publisher_round-AllSettled env cfg staged error_text s =
    let base = s.committed in
    Ensures-bind _ (publish_each env cfg staged error_text) s _
      (λ _ t.
        (jobs : List Job) × (first : Session) × IsQueue base jobs
        × (first.committed ≡ base)
        × AllSettled env cfg staged error_text jobs first t)
      (Ensures-client_query env base s refl (λ t. ok (built_jobs t)))
      λ jobs t (q, same).
        Ensures-weaken-failure _ t
          (publish_each_lem env cfg staged error_text {F = λ u. u.committed ≡ base} jobs t)
          (λ _ settled. (
            jobs,
            t,
            subst (IsQueue base) (ok_injective q) (built_jobs-IsQueue base),
            same,
            settled,
          ))
          (λ k. k)
