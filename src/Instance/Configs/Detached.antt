-- ===== src/Instance/Configs/Detached.antt =====
-- What the detachment of a config's volumes does, in any order of the goroutines.
use Prim.Native.String.{◌++◌ as append}
use text.Mathlib.TextLemmas.{append-eq-nil_iff}
use terraform_provider_linod.Prelude.Runs.{Made, after}
use terraform_provider_linod.Prelude.{
  ℕ, String, true, ◌&&◌, ◌≡◌, refl, sym, ap, ◌∙◌, inl, inr, List, [], ◌∷◌, Result, ok, err, any,
  is_empty, ◌==◌, ==_iff, nat_eq, string_eq, Bool-cases, arith, if◌then◌else◌,
}
use mathlib.Core.Path.{subst}
use mathlib.Core.List.{Perm}
use terraform_provider_linod.Prelude.Perms.{any-perm}
use terraform_provider_linod.Instance.{
  ConfigDeviceMap, Volume, Call, detach_volume, wait_for_volume_detached, Client, History, Run, Ack,
}
use terraform_provider_linod.Instance.Configs.{drives}
use terraform_provider_linod.Instance.Configs.Volumes.{
  VolumeDetacher, volume_detacher, volumes, report, detach_each, join_errors, errors_or_nil,
  detach_config_volumes,
}

-- The API said that the volume is detached.
abbrev pub Waited : Client → ℕ → Call → History → Type 0
Waited client v c h =
    (c ≡ wait_for_volume_detached v) × ((vol : Volume) × (client.answers_volume c h ≡ ok vol))

text_append : (s t : String) → (append s t == "") ≡ (s == "" && t == "")
text_append s t =
    ground
      (arith, ==_iff s "", ==_iff t "", ==_iff (append s t) "", append-eq-nil_iff {p = s} {q = t})

join_errors-empty :
    (errors : List String) (s : String)
    → (join_errors errors s == "") ≡ (is_empty errors && s == "")
unfolding join_errors
join_errors-empty [] s = refl
join_errors-empty (e ∷ errors) s = ground (
  arith,
  join_errors-empty errors (append (if s == "" then append s ", " else s) e),
  text_append (if s == "" then append s ", " else s) e,
  text_append s ", ",
)

-- No error is nil, and one is not.
no_errors :
    (errors : List String) (a : Ack) → errors_or_nil (join_errors errors "") ≡ ok a → errors ≡ []
no_errors [] a e = refl
no_errors (m ∷ errors) a e = ground (arith, join_errors-empty (m ∷ errors) "", e)

reported :
    (r : Result String Ack) (errors : List String)
    → report r errors ≡ []
    → (r ≡ ok tt) × (errors ≡ [])
reported (ok a) errors e = (refl, e)
reported (err m) errors e = cc

module _ (Q : ℕ → History → Type 0) (detacher : VolumeDetacher)
    (later : (v w : ℕ) (h : History) → Q v h → Q v (detacher w h).1) where
  each-later : (v : ℕ) (vs : List ℕ) (h : History) → Q v h → Q v (detach_each detacher vs h).1
  unfolding detach_each
  each-later v [] h q = q
  each-later v (w ∷ vs) h q = each-later v vs _ (later v w h q)

  -- What every detacher brings about, or every one that succeeds.
  each-all :
      ((v : ℕ) (h : History) → Q v (detacher v h).1)
      → (v : ℕ) (vs : List ℕ) (h : History) → any (λ w. w == v) vs ≡ true
      → Q v (detach_each detacher vs h).1
  unfolding detach_each
  each-all now v [] h here = cc
  each-all now v (w ∷ vs) h here = elim (Bool-cases (w == v)) [
    | inl e ↦
        let same : w ≡ v = (==_iff w v).0 e in
        each-later v vs _ (subst (λ u. Q v (detacher u h).1) (sym same) (now v h))
    | inr e ↦ each-all now v vs _ (ground (arith, e))
  ]

  each-ok :
      ((v : ℕ) (h : History) → (detacher v h).0 ≡ ok tt → Q v (detacher v h).1)
      → (v : ℕ) (vs : List ℕ) (h : History) → (detach_each detacher vs h).0 ≡ []
      → any (λ w. w == v) vs ≡ true
      → Q v (detach_each detacher vs h).1
  unfolding detach_each
  each-ok now v [] h clean here = cc
  each-ok now v (w ∷ vs) h clean here =
      let r = reported _ _ clean in
      elim (Bool-cases (w == v)) [
        | inl e ↦
            let same : w ≡ v = (==_iff w v).0 e in
            each-later v vs _ (
              subst (λ u. (detacher u h).0 ≡ ok tt → Q v (detacher u h).1) (sym same) (now v h) r.0)
        | inr e ↦ each-ok now v vs _ r.1 (ground (arith, e))
      ]

module _ (client : Client) where
  call-ends :
      {A B : Type 0} (Q : History → Type 0) (answer : Result String A) (f : A → Run B) (h : History)
      → Q h
      → ((a : A) → answer ≡ ok a → Q (f a h).1)
      → Q (after f (answer, h)).1
  unfolding after
  call-ends Q (ok a) f h q next = next a refl
  call-ends Q (err e) f h q next = q

  call-ok :
      {A B : Type 0} (Q : History → Type 0) (answer : Result String A) (f : A → Run B) (h : History)
      (b : B)
      → (after f (answer, h)).0 ≡ ok b
      → ((a : A) → answer ≡ ok a → (f a h).0 ≡ ok b → Q (f a h).1)
      → Q (after f (answer, h)).1
  unfolding after
  call-ok Q (ok a) f h b e next = next a refl e
  call-ok Q (err m) f h b e next = cc

  later-Made :
      (P : Call → History → Type 0) (w : ℕ) (h : History)
      → Made P h
      → Made P (volume_detacher client w h).1
  unfolding volume_detacher
  later-Made P w h made =
      call-ends (Made P) _ _ _ (inr made)
        (λ a e1. call-ends (Made P) _ _ _ (inr (inr made)) (λ vol e2. inr (inr made)))

  detacher-Asked :
      (v : ℕ) (h : History) → Made (λ c h'. c ≡ detach_volume v) (volume_detacher client v h).1
  unfolding volume_detacher
  detacher-Asked v h =
      call-ends (Made _) _ _ _ (inl refl)
        (λ a e1. call-ends (Made _) _ _ _ (inr (inl refl)) (λ vol e2. inr (inl refl)))

  detacher-Waited :
      (v : ℕ) (h : History)
      → (volume_detacher client v h).0 ≡ ok tt
      → Made (Waited client v) (volume_detacher client v h).1
  unfolding volume_detacher
  detacher-Waited v h e =
      call-ok (Made _) _ _ _ tt e
        (λ a e1 k1. call-ok (Made _) _ _ _ tt k1 (λ vol e2 k2. inl (refl, (vol, e2))))

module _ (client : Client) (schedule : History → List ℕ → List ℕ)
    (runs_all : (h : History) (vs : List ℕ) → Perm (schedule h vs) vs) where
  scheduled :
      (v : ℕ) (vs : List ℕ) (h : History)
      → any (λ w. w == v) vs ≡ true
      → any (λ w. w == v) (schedule h vs) ≡ true
  scheduled v vs h here = any-perm _ (runs_all h vs) ∙ here

  -- The detachment of a config's volumes asks the API to detach each of them, in whatever order the
  -- goroutines run and whichever of them fail.
  pub detach_config_volumes_asks :
      (dmap : ConfigDeviceMap) (v : ℕ) (h : History)
      → any (λ w. w == v) (volumes (drives dmap)) ≡ true
      → Made
          (λ c h'. c ≡ detach_volume v)
          (detach_config_volumes schedule dmap (volume_detacher client) h).1
  unfolding detach_config_volumes
  detach_config_volumes_asks dmap v h here =
      each-all (λ u h'. Made (λ c h0. c ≡ detach_volume u) h') (volume_detacher client)
        (λ u w h'. later-Made client _ w h') (detacher-Asked client) v _ h (scheduled v _ h here)

  -- If the detachment of a config's volumes succeeds, in whatever order the goroutines run, the API has
  -- said of each of them that it is detached.
  pub detach_config_volumes_waits :
      (dmap : ConfigDeviceMap) (v : ℕ) (h h' : History) (a : Ack)
      → any (λ w. w == v) (volumes (drives dmap)) ≡ true
      → detach_config_volumes schedule dmap (volume_detacher client) h ≡ (ok a, h')
      → Made (Waited client v) h'
  unfolding detach_config_volumes
  detach_config_volumes_waits dmap v h h' a here e =
      subst (Made (Waited client v)) (ap (λ (r : Result String Ack × History). r.1) e) (
        each-ok (λ u h1. Made (Waited client u) h1) (volume_detacher client)
          (λ u w h1. later-Made client _ w h1) (detacher-Waited client) v _ h
          (no_errors _ a (ap (λ (r : Result String Ack × History). r.0) e)) (scheduled v _ h here))
