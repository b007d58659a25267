-- ===== src/Config/Defaults/Validity.antt =====
-- internal/config/config.go: what a configuration that `fillDefaults` accepts is good for.
use yggsync.Prelude.{
  ◌≡◌, ◌≢◌, refl, ap, subst, sym, ◌∙◌, Bool, true, false, not, ◌||◌, List, [], ◌∷◌, Text, some,
  codes,
}
use yggsync.Prelude.{
  ◌==◌, text_eq, if◌then◌else◌, ==_of_eq, ==_of_ne, arith, Bool-cases, ◌⊎◌, inl, inr,
}
use yggsync.Prelude.Int.{ltb_ℤ, pos, int_eq}
use yggsync.Prelude.Sorting.{member}
use yggsync.Prelude.Results.{Error, Result, ok, err, then_result}
use yggsync.Config.{Job, Config, find_job, job}
use yggsync.Config.Defaults.{
  text_or, tidy_job, mixes_filters, is_supported, check_job, job_step, fill_targets, fill_jobs,
  fill_defaults,
}

-- `find_job` gives the job itself, and the runner can run it.
pub record IsRunnable (j : Job) : Type 0 where
  pub named : j.name ≢ []
  pub on_time : ltb_ℤ j.timeout_seconds (pos 0) ≡ false
  pub has_local : j.local ≢ []
  pub has_remote : j.remote ≢ []
  pub has_direction : j.direction ≢ []
  pub one_filter : mixes_filters j ≡ false
  pub supported : is_supported j.type ≡ true

pub data Among (j : Job) : List Job → Type 0 where
  here : {js : List Job} → Among j (j ∷ js)
  there : {k : Job} {js : List Job} → Among j js → Among j (k ∷ js)

guard_passed :
    {A : Type 0} (b : Bool) (e : Error) (r : Result A) {a : A}
    → (if b then err e else r) ≡ ok a
    → (b ≡ false) × (r ≡ ok a)
guard_passed true e r h = cc
guard_passed false e r h = (refl, h)

then_result-ok :
    {A B : Type 0} (r : Result A) (f : A → Result B) {b : B}
    → then_result r f ≡ ok b
    → (a : A) × (r ≡ ok a) × (f a ≡ ok b)
then_result-ok (ok a) f h = (a, refl, h)
then_result-ok (err e) f h = cc

ok_inj : {A : Type 0} {a b : A} → ok a ≡ ok b → a ≡ b
ok_inj h = cc

text_or-ne : (t d : Text) → d ≢ [] → text_or t d ≢ []
text_or-ne t d full = elim (Bool-cases (t == [])) [
  | inl e ↦ λ z. full (sym (ap (λ b. if b then d else t) e) ∙ z)
  | inr e ↦ λ z. cc (e, ==_of_eq t [] (sym (ap (λ b. if b then d else t) e) ∙ z))
]

neither : (x y : Bool) → (x || y) ≡ false → (x ≡ false) × (y ≡ false)
neither x y h = ground arith

Among-cases : {k x : Job} {xs : List Job} → Among k (x ∷ xs) → (k ≡ x) ⊎ Among k xs
Among-cases here = inl refl
Among-cases (there a) = inr a

Among-nil : {k : Job} → Among k [] → ⊥
Among-nil a = elim a [ ]

job_step-ok :
    (seen : List Text) (j k : Job)
    → job_step seen j ≡ ok k
    → (k.name ≡ j.name) × (member j.name seen ≡ false) × IsRunnable k
unfolding job_step check_job tidy_job
job_step-ok seen j k h =
    let (named, h1) = guard_passed (j.name == []) _ _ h in
    let (fresh, h2) = guard_passed (member j.name seen) _ _ h1 in
    let (on_time, h3) = guard_passed (ltb_ℤ j.timeout_seconds (pos 0)) _ _ h2 in
    let (has_local, h4) = guard_passed (j.local == []) _ _ h3 in
    let (has_remote, h5) = guard_passed (j.remote == []) _ _ h4 in
    let (one_filter, h6) = guard_passed (mixes_filters j) _ _ h5 in
    let (unsupported, h7) = guard_passed (not (is_supported (tidy_job j).type)) _ _ h6 in
    let same : tidy_job j ≡ k = ok_inj h7 in
    (
      ap (λ z. z.name) (sym same),
      fresh,
      subst (λ z. IsRunnable z) same
          (record {
            named = λ e. cc (named, ==_of_eq j.name [] e);
            on_time = on_time;
            has_local = λ e. cc (has_local, ==_of_eq j.local [] e);
            has_remote = λ e. cc (has_remote, ==_of_eq j.remote [] e);
            has_direction = text_or-ne j.direction (codes "push") (λ e. cc);
            one_filter = one_filter;
            supported = ground arith;
          }),
    )

-- Every job of the list is runnable, has a name that was not seen, and is the one that its name finds.
fill_jobs-ok :
    (seen : List Text) (js ks : List Job) (k : Job)
    → fill_jobs seen js ≡ ok ks
    → Among k ks
    → IsRunnable k × (member k.name seen ≡ false) × (find_job k.name ks ≡ some k)
unfolding fill_jobs find_job member
fill_jobs-ok seen [] ks k h a = absurd (Among-nil (subst (λ z. Among k z) (sym (ok_inj h)) a))
fill_jobs-ok seen (j ∷ js) ks k h a =
    let (k1, h1, h2) = then_result-ok (job_step seen j) _ h in
    let (ks1, h3, h4) = then_result-ok (fill_jobs (j.name ∷ seen) js) _ h2 in
    let (same, fresh, good) = job_step-ok seen j k1 h1 in
    subst (λ z. IsRunnable k × (member k.name seen ≡ false) × (find_job k.name z ≡ some k))
      (ok_inj h4)
      (elim (Among-cases (subst (λ z. Among k z) (sym (ok_inj h4)) a)) [
        | inl e ↦
            subst
              (λ z.
                IsRunnable z × (member z.name seen ≡ false) × (find_job z.name (k1 ∷ ks1) ≡ some z))
              (sym e)
              (good, ap (λ z. member z seen) same ∙ fresh, rw (==_of_eq k1.name k1.name refl))
        | inr b ↦
            let (able, away, found) = fill_jobs-ok (j.name ∷ seen) js ks1 k h3 b in
            let (other, unseen) = neither (k.name == j.name) (member k.name seen) away in
            (
              able,
              unseen,
              rw (==_of_ne k1.name k.name (λ e. cc (other, ==_of_eq k.name j.name (sym e ∙ same))))
                  found,
            )
      ])

-- A job of an accepted configuration is runnable, and the lookup of its name finds that job.
pub fill_defaults-IsRunnable :
    {Temp : Type 0} (c d : Config Temp) (k : Job)
    → fill_defaults c ≡ ok d
    → Among k d.jobs
    → IsRunnable k × (job d k.name ≡ some k)
unfolding fill_defaults
fill_defaults-IsRunnable c d k h a =
    let (ts, _, h1) = then_result-ok (fill_targets [] c.targets) _ h in
    let (ks, h2, h3) = then_result-ok (fill_jobs [] c.jobs) _ h1 in
    let same : ks ≡ d.jobs = ap (λ z. z.jobs) (ok_inj h3) in
    let (good, _, found) = fill_jobs-ok [] c.jobs d.jobs k (h2 ∙ ap ok same) a in (good, found)
